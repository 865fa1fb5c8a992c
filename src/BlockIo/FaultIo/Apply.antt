-- ===== src/BlockIo/FaultIo/Apply.antt =====
-- What a write changes in the bytes of a device, and what it leaves.
use fuse_scrollfs.BlockIo.FaultIo.{apply, pad_to}
use fuse_scrollfs.Bytes.{Bytes, slice}
use fuse_scrollfs.Prelude.{
  ap, append_assoc, arith, drop, drop-append_at, drop-append_left, drop-append_right, drop-drop,
  drop-take, length, length-append, length-drop, length-replicate, length-take, max, refl,
  replicate, sym, take, take-append_at, take-append_left, take-take, ℕ, ◌++◌, ◌+◌, ◌-◌, ◌∙◌, ◌≡◌,
  ◌≤◌,
}

length-pad_to : (buf : Bytes) (n : ℕ) → length (pad_to buf n) ≡ max n (length buf)
length-pad_to buf n = omega (
  arith,
  length-append buf (replicate (n - length buf) 0),
  length-replicate {A = ℕ} (n - length buf) 0,
)

pub length-apply :
    (buf : Bytes) (off : ℕ) (bytes : Bytes)
    → length (apply buf off bytes) ≡ max (off + length bytes) (length buf)
unfolding apply
length-apply buf off bytes =
    let n = off + length bytes in
    let p = pad_to buf n in
    omega (
      arith,
      length-pad_to buf n,
      length-take off p,
      length-drop n p,
      length-append (take off p ++ bytes) (drop n p),
      length-append (take off p) bytes,
      length-append (take off p) (bytes ++ drop n p),
      length-append bytes (drop n p),
    )

-- The parts that a write leaves around its bytes.
module _ (buf : Bytes) (off : ℕ) (bytes : Bytes) where
  abbrev padded : Bytes
  padded = pad_to buf (off + length bytes)

  length-front : length (take off padded) ≡ off
  length-front = omega (arith, length-take off padded, length-pad_to buf (off + length bytes))

  length-front_bytes : length (take off padded ++ bytes) ≡ off + length bytes
  length-front_bytes = omega (arith, length-append (take off padded) bytes, length-front)

  -- A write at or past `n` leaves the first `n` bytes.
  pub take-apply : (n : ℕ) → n ≤ off → n ≤ length buf → take n (apply buf off bytes) ≡ take n buf
  unfolding apply
  take-apply n h l =
      take-append_left n (take off padded ++ bytes) (drop (off + length bytes) padded)
        (omega (arith, length-front_bytes))
      ∙ take-append_left n (take off padded) bytes (omega (arith, length-front))
      ∙ take-take n off padded h
      ∙ take-append_left n buf (replicate (off + length bytes - length buf) 0) l

  -- What was written is read back.
  pub slice-apply_self : slice off (length bytes) (apply buf off bytes) ≡ bytes
  unfolding apply
  slice-apply_self =
      let back = drop (off + length bytes) padded in
      ap (λ b. slice off (length bytes) b) (append_assoc (take off padded) bytes back)
      ∙ ap (take (length bytes))
          (drop-append_at off (take off padded) (bytes ++ back) (sym length-front))
      ∙ take-append_at (length bytes) bytes back refl

  -- A region before the write is read as it was.
  pub slice-apply_before :
      (at n : ℕ)
      → at + n ≤ off
      → at + n ≤ length buf
      → slice at n (apply buf off bytes) ≡ slice at n buf
  slice-apply_before at n h l =
      sym (drop-take at n (apply buf off bytes))
      ∙ ap (drop at) (take-apply (at + n) h l)
      ∙ drop-take at n buf

  -- So is a region behind it.
  pub slice-apply_after :
      (at n : ℕ)
      → off + length bytes ≤ at
      → at + n ≤ length buf
      → slice at n (apply buf off bytes) ≡ slice at n buf
  unfolding apply
  slice-apply_after at n h l =
      let m = at - (off + length bytes) in
      let zeros = replicate {A = ℕ} (off + length bytes - length buf) 0 in
      ap (take n) (
        drop-append_right at m (take off padded ++ bytes) (drop (off + length bytes) padded)
          (omega (arith, length-front_bytes))
        ∙ drop-drop m (off + length bytes) padded
        ∙ ap (λ k. drop k padded) (omega arith)
        ∙ drop-append_left at buf zeros (omega arith))
      ∙ take-append_left n (drop at buf) zeros (omega (arith, length-drop at buf))
