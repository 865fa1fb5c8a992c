-- ===== src/Frontend/Piece.antt =====
-- What crates/scrollz/src/rwfs.rs takes out of a plain block.
use fuse_scrollfs.Bytes.{Bytes, fit, length-slice, slice}
use fuse_scrollfs.Bytes.Nth.{length-fit, nth, nth-fit, nth-slice, nth_beyond}
use fuse_scrollfs.Codec.{plain}
use fuse_scrollfs.Frontend.FileBytes.{file_bytes, file_bytes_ext}
use fuse_scrollfs.Frontend.Read.{copied, from_block, from_tail}
use fuse_scrollfs.Prelude.{
  Bool, Bool-cases, [], ap, arith, inl, inr, length, ltb, ltb-false, ltb→lt, lt→ltb, min, refl, sym,
  true, ℕ, ◌*◌, ◌+◌, ◌-◌, ◌<◌, ◌∙◌, ◌≡◌, ◌≤◌, ◌⊎◌,
}
use fuse_scrollfs.Prelude.Result.{ok}
use fuse_scrollfs.Rmw.View.{PlainBlock}

copied-long :
    (from to : ℕ) (plain : Bytes)
    → from < min to (length plain)
    → copied from to plain ≡ slice from (min to (length plain) - from) plain
unfolding copied
copied-long from to plain l = rw (lt→ltb from (min to (length plain)) l) refl

copied-short :
    (from to : ℕ) (plain : Bytes) → min to (length plain) ≤ from → copied from to plain ≡ []
unfolding copied
copied-short from to plain l = rw (ltb-false from (min to (length plain)) l) refl

pub length-copied :
    (from to : ℕ) (plain : Bytes) → length (copied from to plain) ≡ min to (length plain) - from
length-copied from to plain = elim (Bool-cases (ltb from (min to (length plain)))) [
  | inl h ↦
      let l = ltb→lt from (min to (length plain)) h in
      ap length (copied-long from to plain l)
      ∙ length-slice from (min to (length plain) - from) plain (omega (arith, l))
  | inr h ↦
      let l : min to (length plain) ≤ from = ground (arith, h) in
      let n : 0 ≡ min to (length plain) - from = omega (arith, l) in
      ap length (copied-short from to plain l) ∙ n
]

nth-copied :
    (from to : ℕ) (plain : Bytes) (i : ℕ)
    → i < to - from
    → nth (copied from to plain) i ≡ nth plain (from + i)
nth-copied from to plain i b = elim (Bool-cases (ltb from (min to (length plain)))) [
  | inl h ↦
      let l = ltb→lt from (min to (length plain)) h in
      let n = min to (length plain) - from in
      ap (λ xs. nth xs i) (copied-long from to plain l)
      ∙ ground (arith, nth-slice from n plain i, nth_beyond plain (from + i), b)
  | inr h ↦
      let l : min to (length plain) ≤ from = ground (arith, h) in
      ap (λ xs. nth xs i) (copied-short from to plain l)
      ∙ sym (nth_beyond plain (from + i) (omega (arith, l, b)))
]

module _ (f : ℕ → ℕ) (size cs idx from to : ℕ) (plain : Bytes) (p : PlainBlock f size cs idx plain)
    (l : to ≤ cs) where
  filled : fit (to - from) (copied from to plain) ≡ file_bytes f (idx * cs + from) (to - from)
  filled =
      let out = copied from to plain in
      file_bytes_ext f (to - from) (idx * cs + from) (fit (to - from) out)
        (length-fit (to - from) out)
        (λ i b.
          let at : idx * cs + (from + i) ≡ idx * cs + from + i = omega arith in
          let here : nth (fit (to - from) out) i ≡ nth out i =
            nth-fit (to - from) out i ∙ rw (lt→ltb i (to - from) b) refl in
          here
          ∙ nth-copied from to plain i b
          ∙ p.content (from + i) (omega (arith, b, l))
          ∙ ap f at)

  all_there :
      length (copied from to plain) ≡ to - from
      → copied from to plain ≡ file_bytes f (idx * cs + from) (to - from)
  all_there n = file_bytes_ext f (to - from) (idx * cs + from) (copied from to plain) n (λ i b.
      let at : idx * cs + (from + i) ≡ idx * cs + from + i = omega arith in
      nth-copied from to plain i b ∙ p.content (from + i) (omega (arith, b, l)) ∙ ap f at)

  -- The open tail gives the bytes of the file.
  pub from_tail_lem : from_tail from to plain ≡ file_bytes f (idx * cs + from) (to - from)
  unfolding from_tail
  from_tail_lem = elim (Bool-cases (ltb (length (copied from to plain)) (to - from))) [
    | inl h ↦ rw h filled
    | inr h ↦
        let n : length (copied from to plain) ≡ to - from =
          ground (arith, h, length-copied from to plain) in
        rw h (all_there n)
  ]

  -- So does any other block that is whole, and one that is not where it ends the file.
  pub from_block_lem :
      (is_last : Bool)
      → (is_last ≡ true) ⊎ (to ≤ length plain)
      → from_block is_last from to plain ≡ ok (file_bytes f (idx * cs + from) (to - from))
  unfolding from_block
  from_block_lem is_last w = elim (Bool-cases (ltb (length (copied from to plain)) (to - from))) [
    | inl h ↦ elim w [
      | inl e ↦ rw (h, e) (ap (λ xs. ok xs) filled)
      | inr m ↦ absurd (ground (arith, h, m, length-copied from to plain))
    ]
    | inr h ↦
        let n : length (copied from to plain) ≡ to - from =
          ground (arith, h, length-copied from to plain) in
        rw h (ap (λ xs. ok xs) (all_there n))
  ]
