-- ===== src/Rmw/Patch.antt =====
-- Of crates/scrollz/src/core/rmw.rs.
-- One block of a write: its new bytes are the written file's.
-- The file after a write.
use fuse_scrollfs.Bytes.{Bytes, fit, length-slice, slice, splice, u64_mod}
use fuse_scrollfs.Bytes.Nth.{
  length-fit, length-splice, nth, nth-fit, nth-slice, nth-splice, nth_beyond,
}
use fuse_scrollfs.Chunk.{add64, sub64}
use fuse_scrollfs.Prelude.{
  Bool-cases, arith, false, if◌then◌else◌, inl, inr, leb, length, ltb, max, min, refl, sym, true, ℕ,
  ◌%◌, ◌&&◌, ◌*◌, ◌+◌, ◌-◌, ◌<◌, ◌∙◌, ◌≡◌, ◌≤◌,
}
use fuse_scrollfs.Rmw.View.{PlainBlock}
use fuse_scrollfs.Rmw.Write.{Span, patch, span}

unfoldable pub overwrite : (ℕ → ℕ) → ℕ → Bytes → ℕ → ℕ
overwrite f offset input p =
    if leb offset p && ltb p (offset + length input) then nth input (p - offset) else f p

-- A part of `input` copied into a buffer.
nth-window :
    (xs input : Bytes) (p off n i : ℕ)
    → p + n ≤ length xs
    → off + n ≤ length input
    → nth (splice xs p (slice off n input)) i
      ≡ (if leb p i && ltb i (p + n) then nth input (off + (i - p)) else nth xs i)
nth-window xs input p off n i h k =
    let piece = slice off n input in
    let len : length piece ≡ n = length-slice off n input k in
    ground (arith, len, nth-splice xs piece p i, nth-slice off n input (i - p))

-- A byte of the new block, whose first byte has the position `b`.
nth-patch :
    (offset new_size b cs : ℕ) (input old : Bytes) (i : ℕ)
    → b + cs < u64_mod
    → b ≤ new_size
    → offset + length input ≤ new_size
    → i < cs
    → nth
        (patch offset input
          (record {
            block_start = b;
            w_start = max offset b;
            w_end = max (min (offset + length input) (b + cs)) (max offset b);
            logical_end = min (b + cs) new_size;
          })
          old)
        i
      ≡ (if leb offset (b + i) && ltb (b + i) (offset + length input)
          then nth input (b + i - offset)
          else if ltb i (min cs (new_size - b))
          then nth old i
          else 0)
unfolding patch
nth-patch offset new_size b cs input old i h l e k =
    let w_start = max offset b in
    let w_end = max (min (offset + length input) (b + cs)) w_start in
    let len = sub64 (min (b + cs) new_size) b in
    let len_eq : len ≡ min cs (new_size - b) = omega (arith, h, l) in
    let p = w_start - b in
    let n = w_end - w_start in
    elim (Bool-cases (ltb w_start w_end)) [
      | inl meets ↦
          let m : w_start < w_end = ground (arith, meets) in
          let window =
            nth-window (fit len old) input p (w_start - offset) n i
              (omega (arith, length-fit len old, len_eq, m)) (omega (arith, m)) in
          rw (meets, window, nth-fit len old i, len_eq)
            (elim (Bool-cases (leb offset (b + i) && ltb (b + i) (offset + length input))) [
              | inl inside ↦
                  let e1 : leb p i && ltb i (p + n) ≡ true = ground (arith, inside, m, k) in
                  let e2 : w_start - offset + (i - p) ≡ b + i - offset =
                    ground (arith, inside, m, k) in
                  rw (inside, e1, e2) refl
              | inr outside ↦
                  let e1 : leb p i && ltb i (p + n) ≡ false = ground (arith, outside, m, k) in
                  rw (outside, e1) refl
            ])
      | inr misses ↦ rw misses (ground (arith, nth-fit len old i, len_eq))
    ]

length-patch :
    (offset new_size b cs : ℕ) (input old : Bytes)
    → b + cs < u64_mod
    → b ≤ new_size
    → offset + length input ≤ new_size
    → length (
        patch offset input
          (record {
            block_start = b;
            w_start = max offset b;
            w_end = max (min (offset + length input) (b + cs)) (max offset b);
            logical_end = min (b + cs) new_size;
          })
          old)
      ≡ min cs (new_size - b)
unfolding patch
length-patch offset new_size b cs input old h l e =
    let w_start = max offset b in
    let w_end = max (min (offset + length input) (b + cs)) w_start in
    let len = sub64 (min (b + cs) new_size) b in
    let len_eq : len ≡ min cs (new_size - b) = omega (arith, h, l) in
    let piece = slice (w_start - offset) (w_end - w_start) input in
    elim (Bool-cases (ltb w_start w_end)) [
      | inl meets ↦
          let m : w_start < w_end = ground (arith, meets) in
          let n : length piece ≡ w_end - w_start =
            length-slice (w_start - offset) (w_end - w_start) input (omega (arith, m)) in
          let k =
            length-splice (fit len old) piece (w_start - b)
              (omega (arith, m, n, length-fit len old, len_eq)) in
          rw (meets, k, length-fit len old) len_eq
      | inr misses ↦ rw (misses, length-fit len old) len_eq
    ]

module _ (offset new_size cs idx : ℕ) (input : Bytes) where
  unfoldable pub plain_span : Span
  plain_span = record {
    block_start = idx * cs;
    w_start = max offset (idx * cs);
    w_end = max (min (offset + length input) (idx * cs + cs)) (max offset (idx * cs));
    logical_end = min (idx * cs + cs) new_size;
  }

  -- Nothing wraps below 2^64.
  pub span_eq :
      idx * cs + cs < u64_mod → span offset (offset + length input) new_size cs idx ≡ plain_span
  unfolding span plain_span
  span_eq h =
      let e : (idx * cs) % u64_mod ≡ idx * cs = omega (arith, h) in
      let e' : add64 (idx * cs) cs ≡ idx * cs + cs = omega (arith, h) in rw (e, e') refl

  -- The written block is the written file's, whether the old one was read or not.
  pub PlainBlock-patched :
      (f : ℕ → ℕ) (size : ℕ) (old start : Bytes)
      → idx * cs + cs < u64_mod
      → idx * cs ≤ new_size
      → offset + length input ≤ new_size
      → size ≤ new_size
      → PlainBlock f size cs idx old
      → ((i : ℕ)
          → i < cs
          → leb offset (idx * cs + i) && ltb (idx * cs + i) (offset + length input) ≡ false
          → ltb i (min cs (new_size - idx * cs)) ≡ true
          → nth start i ≡ nth old i)
      → PlainBlock (overwrite f offset input) new_size cs idx (patch offset input plain_span start)
  unfolding plain_span overwrite
  PlainBlock-patched f size old start h l e n p same = record {
    short = omega (arith, length-patch offset new_size (idx * cs) cs input start h l e);
    within = omega (arith, length-patch offset new_size (idx * cs) cs input start h l e);
    content = λ i k.
        nth-patch offset new_size (idx * cs) cs input start i h l e k
        ∙ elim (Bool-cases
            (leb offset (idx * cs + i) && ltb (idx * cs + i) (offset + length input))) [
              | inl inside ↦ rw inside refl
              | inr outside ↦ rw outside (elim (Bool-cases (ltb i (min cs (new_size - idx * cs)))) [
                | inl below ↦ rw below (same i k outside below ∙ p.content i k)
                | inr above ↦ rw above (
                    sym (nth_beyond old i (ground (arith, above, p.within, n, k, p.short)))
                    ∙ p.content i k)
              ])
            ];
  }
