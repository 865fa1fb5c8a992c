-- ===== src/Frontend/ReadRange.antt =====
-- `read_range` of crates/scrollz/src/rwfs.rs against the bytes of the file.
use fuse_scrollfs.BlockCache.{Inner}
use fuse_scrollfs.Bytes.{Bytes, length-slice, slice, u64_mod}
use fuse_scrollfs.Bytes.Nth.{nth, nth-slice}
use fuse_scrollfs.Chunk.{add64, block_range}
use fuse_scrollfs.Chunk.Range.{le_last, range_eq}
use fuse_scrollfs.Codec.{Zstd, plain}
use fuse_scrollfs.Frontend.Cached.{AllCached}
use fuse_scrollfs.Frontend.FileBytes.{file_bytes, file_bytes_ext, span_bytes}
use fuse_scrollfs.Frontend.Read.{
  Reply, answer, by_blocks, head_covers, from_head, read_blocks, read_found, read_range, reply,
}
use fuse_scrollfs.Frontend.ReadBlock.{HeadIs, IsReadable, WholeBlock}
use fuse_scrollfs.Frontend.ReadRound.{Collected, read_blocks_lem}
use fuse_scrollfs.Prelude.{
  Bool, Bool-cases, Option, ap, ap₂, arith, inl, inr, leb, leb→le, length, lt→ltb, max, min, none,
  refl, some, sym, true, ℕ, ◌%◌, ◌*◌, ◌+◌, ◌-◌, ◌/◌, ◌<◌, ◌==◌, ◌||◌, ◌∙◌, ◌≡◌, ◌≤◌,
}
use fuse_scrollfs.Prelude.Exec.{Ensures, continue_with}
use fuse_scrollfs.Prelude.Result.{ErrorKind, Result, err, ok}
use fuse_scrollfs.Rmw.Load.{CodecParams}
use fuse_scrollfs.Session.Tail.{Open}
use fuse_scrollfs.Session.View.{Holds-geometry}
use fuse_scrollfs.Store.{Store}
use mathlib.Core.Path.{subst}
use native.Mathlib.Nat.{div-add-mod, mod-eq_of_lt, mod-lt}

module _ {W : Type 0} (z : Zstd) (store : Store W) (ino : ℕ) (params : CodecParams) (f : ℕ → ℕ)
    (size cs : ℕ) (configured_cap probe_interval : ℕ) (now : ℕ → ℕ) (available : ℕ → Option ℕ)
    (s : Open W) (r : IsReadable z store ino params f size cs s) (c : 0 < cs)
    (o : size + cs < u64_mod) where
  by_blocks_lem :
      (offset end : ℕ) (g : Inner)
      → offset < end
      → end ≤ size
      → AllCached ino (WholeBlock f size cs) g
      → Ensures
          (Collected z store ino params f size cs configured_cap probe_interval now available s r
            (span_bytes f offset end))
          (λ _. ⊥)
          (by_blocks z store ino params true configured_cap probe_interval now available s size cs
            offset end g)
  unfolding by_blocks
  by_blocks_lem offset end g l e k =
      let first = offset / cs in
      let last = (end - 1) / cs in
      let range : block_range offset (max (end - offset) 1) cs ≡ (first, last) =
        range_eq offset (max (end - offset) 1) cs (omega arith) (omega (arith, o, e, l))
        ∙ ap (λ x. (first, (x - 1) / cs)) (omega (arith, l)) in
      let d : first * cs + offset % cs ≡ offset = omega (arith, div-add-mod offset cs) in
      let m : offset % cs < cs = mod-lt offset c in
      let d' : last * cs + (end - 1) % cs ≡ end - 1 = omega (arith, div-add-mod (end - 1) cs) in
      let m' : (end - 1) % cs < cs = mod-lt (end - 1) c in
      let q : first ≤ last = (le_last end first cs c (omega (arith, l))).1 (omega (arith, d, l)) in
      let n : (first + (last + 1 - first)) * cs ≡ last * cs + cs =
        ap (λ x. x * cs) {y = last + 1} (omega (arith, q)) ∙ omega arith in
      let a : max offset (first * cs) ≡ offset = omega (arith, d) in
      let b : min end ((first + (last + 1 - first)) * cs) ≡ end = omega (arith, n, d', m', l) in
      let run =
        read_blocks_lem z store ino params f size cs configured_cap probe_interval now available s r
          offset end (last + 1 - first) first g e (omega (arith, d, m)) (omega (arith, n, d', o, e))
          k in
      let run' : Ensures
          (Collected z store ino params f size cs configured_cap probe_interval now available s r
            (span_bytes f offset end))
          (λ _. ⊥)
          (read_blocks z store ino params true configured_cap probe_interval now available s size cs
            offset end (last + 1 - first) first g) =
        subst
          (λ want.
            Ensures
              (Collected z store ino params f size cs configured_cap probe_interval now available s
                r want)
              (λ _. ⊥)
              (read_blocks z store ino params true configured_cap probe_interval now available s
                size cs offset end (last + 1 - first) first g))
          (ap₂ (span_bytes f) a b) run in
      subst {A = ℕ × ℕ}
        (λ x.
          Ensures
            (Collected z store ino params f size cs configured_cap probe_interval now available s r
              (span_bytes f offset end))
            (λ _. ⊥)
            (read_blocks z store ino params true configured_cap probe_interval now available s size
              cs offset end (x.1 + 1 - x.0) x.0 g))
        (sym range) run'

  head_covers_lem :
      (offset end : ℕ) (plain : Bytes) (g : Inner)
      → offset < end
      → end ≤ size
      → ((i : ℕ) → i < length plain → nth plain i ≡ f i)
      → AllCached ino (WholeBlock f size cs) g
      → Ensures
          (Collected z store ino params f size cs configured_cap probe_interval now available s r
            (span_bytes f offset end))
          (λ _. ⊥)
          (head_covers z store ino params true configured_cap probe_interval now available offset
            (end - offset)
            plain
            (by_blocks z store ino params true configured_cap probe_interval now available s size cs
              offset end)
            g)
  head_covers_lem offset end plain g l e h k =
      elim (Bool-cases (leb (offset + (end - offset)) (length plain))) [
        | inl q ↦
            let m = leb→le (offset + (end - offset)) (length plain) q in
            rw q (
              file_bytes_ext f (end - offset) offset (slice offset (end - offset) plain)
                  (length-slice offset (end - offset) plain m)
                  (λ i b.
                    nth-slice offset (end - offset) plain i
                    ∙ rw (lt→ltb i (end - offset) b) (h (offset + i) (omega (arith, b, m)))),
              k,
            )
        | inr q ↦ rw q (by_blocks_lem offset end g l e k)
      ]

  from_head_lem :
      (offset end : ℕ) (q : Result (Option (Bytes × Bool))) (g : Inner)
      → offset < end
      → end ≤ size
      → HeadIs z store ino params f size cs q
      → AllCached ino (WholeBlock f size cs) g
      → Ensures
          (Collected z store ino params f size cs configured_cap probe_interval now available s r
            (span_bytes f offset end))
          (λ _. ⊥)
          (continue_with
            (from_head z store ino params true configured_cap probe_interval now available s size cs
              offset end)
            (q, g))
  from_head_lem offset end (err _) g l e h k = absurd h
  from_head_lem offset end (ok none) g l e h k = by_blocks_lem offset end g l e k
  from_head_lem offset end (ok (some (bytes, verbatim))) g l e (plain, d, h) k =
      rw d (head_covers_lem offset end plain g l e h k)

  read_found_lem :
      (offset end : ℕ) (g : Inner)
      → offset < end
      → end ≤ size
      → AllCached ino (WholeBlock f size cs) g
      → Ensures
          (Collected z store ino params f size cs configured_cap probe_interval now available s r
            (span_bytes f offset end))
          (λ _. ⊥)
          (read_found z store ino params true configured_cap probe_interval now available s size cs
            offset end g)
  unfolding read_found
  read_found_lem offset end g l e k =
      from_head_lem offset end (store.read_head_cache s.disk ino offset (end - offset)) g l e
        (r.head offset (end - offset)) k

  -- The answer and the cache after a read.
  abbrev pub Answers : Bytes → Reply × Inner → Type 0
  Answers want p = (p.0 ≡ answer want) × AllCached ino (WholeBlock f size cs) p.1

  Collected-Answers :
      (raw_os_error : ErrorKind → Option ℕ) (want part : Bytes) (p : Result Bytes × Inner)
      → want ≡ part
      → Ensures
          (Collected z store ino params f size cs configured_cap probe_interval now available s r
            want)
          (λ _. ⊥)
          p
      → Answers part (reply raw_os_error p.0, p.1)
  Collected-Answers raw_os_error want part (ok out, g) q (e, k) = (ap (λ xs. answer xs) (e ∙ q), k)
  Collected-Answers raw_os_error want part (err _, g) q h = absurd h

  abbrev pub file_part : ℕ → ℕ → Bytes
  file_part offset count = file_bytes f offset (min count (size - offset))

  -- On an open file that holds f, whose chunk size is positive, whose size and one chunk together
  -- stay below 2^64, whose stored blocks inside the file are whole and whose head cache, if any,
  -- is the beginning of f, with cached blocks that are blocks of f, and with a range that ends
  -- below 2^64, read_range answers exactly the bytes of f from the offset on, as many as are
  -- asked for and the file has, and every block that is then cached is a block of f.
  pub read_range-file_bytes :
      (raw_os_error : ErrorKind → Option ℕ) (offset count : ℕ) (g : Inner)
      → offset + count < u64_mod
      → AllCached ino (WholeBlock f size cs) g
      → Answers (file_part offset count) (
          read_range z store ino params true configured_cap probe_interval now available
            raw_os_error s offset count g)
  unfolding read_range file_bytes
  read_range-file_bytes raw_os_error offset count g b k =
      let geometry = Holds-geometry z store ino params f size cs s r.holds in
      elim (Bool-cases (leb size offset || count == 0)) [
        | inl h ↦
            let n : min count (size - offset) ≡ 0 = ground (arith, h) in
            rw (read_range, geometry, h, n) (refl, k)
        | inr h ↦
            let n : min (add64 offset count) size - offset ≡ min count (size - offset) =
              ap (λ x. min x size - offset) (mod-eq_of_lt b) ∙ omega arith in
            let l : offset < min (add64 offset count) size = ground (arith, h, mod-eq_of_lt b) in
            let m : min (add64 offset count) size ≤ size = omega arith in
            rw (read_range, geometry, h)
              (Collected-Answers raw_os_error (span_bytes f offset (min (add64 offset count) size))
                (file_part offset count)
                (read_found z store ino params true configured_cap probe_interval now available s
                  size cs offset (min (add64 offset count) size) g)
                (ap (file_bytes f offset) n)
                (read_found_lem offset (min (add64 offset count) size) g l m k))
      ]
