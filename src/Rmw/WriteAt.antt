-- ===== src/Rmw/WriteAt.antt =====
-- A write of crates/scrollz/src/core/rmw.rs against the file it leaves.
-- Below and above the written range nothing changes.
use fuse_scrollfs.Bytes.{Bytes, u64_mod}
use fuse_scrollfs.Chunk.Range.{block_range-meets, le_last, range_eq}
use fuse_scrollfs.Codec.{Zstd, max_decompressed_block}
use fuse_scrollfs.Prelude.{
  Bool-cases, arith, false, inl, inr, leb, length, ltb, max, min, refl, some, suc, sym, true, ℕ,
  ◌&&◌, ◌*◌, ◌+◌, ◌-◌, ◌/◌, ◌<◌, ◌∷◌, ◌≡◌, ◌≤◌, ◌⊎◌,
}
use fuse_scrollfs.Prelude.Exec.{Ensures, Ensures-bind}
use fuse_scrollfs.Prelude.Result.{err, invalid_input}
use fuse_scrollfs.Rmw.Load.{CodecParams}
use fuse_scrollfs.Rmw.Patch.{overwrite}
use fuse_scrollfs.Rmw.View.{IsFile, IsSound, LoadsBlock-cong}
use fuse_scrollfs.Rmw.Write.{
  div_ceil, max_sparse_extension, write_at, write_blocks, write_checked, write_found,
}
use fuse_scrollfs.Rmw.WriteBlocks.{write_blocks_lem}
use fuse_scrollfs.Store.{Store}
use native.Mathlib.Nat.{le-div_iff_mul-le}

overwrite_outside :
    (f : ℕ → ℕ) (offset cs j i : ℕ) (input : Bytes)
    → 0 < length input
    → offset + length input < u64_mod
    → i < cs
    → (j < offset / cs) ⊎ ((offset + length input - 1) / cs < j)
    → overwrite f offset input (j * cs + i) ≡ f (j * cs + i)
unfolding overwrite
overwrite_outside f offset cs j i input p o k out =
    elim (Bool-cases (leb offset (j * cs + i) && ltb (j * cs + i) (offset + length input))) [
      | inr outside ↦ rw outside refl
      | inl inside ↦
          let meets =
            (block_range-meets offset (length input) cs j (omega (arith, k)) p o).1
              (ground (arith, inside, k), ground (arith, inside)) in
          let (l1, l2) = rw (range_eq offset (length input) cs p o) at meets in
          absurd (elim out [ inl l ↦ omega (arith, l, l1) | inr l ↦ omega (arith, l, l2) ])
    ]

module _ {W : Type 0} (z : Zstd) (store : Store W) (ino : ℕ) (params : CodecParams)
    (fails : W → Type 0) (sound : IsSound z store ino params fails) where
  write_checked_lem :
      (f : ℕ → ℕ) (offset size cs : ℕ) (input : Bytes) (w : W)
      → 0 < length input
      → 0 < cs
      → cs ≤ max_decompressed_block
      → offset + length input + cs ≤ u64_mod
      → IsFile z store ino params f size cs w
      → Ensures
          (λ n w'.
            (n ≡ length input)
            × IsFile z store ino params
                (overwrite f offset input)
                (max size (offset + length input))
                cs
                w')
          fails
          (write_checked z store ino params offset (offset + length input) input size cs w)
  unfolding write_checked
  write_checked_lem f offset size cs input w p c m o file =
      let end = offset + length input in
      let new_size = max size end in
      let first = offset / cs in
      let last = (end - 1) / cs in
      let start = min first (div_ceil size cs) in
      let rounds = suc last - start in
      let bounded = le_last end in
      let at_first : first * cs ≤ offset =
        (le-div_iff_mul-le {x = first} {y = offset} c).0 (omega arith) in
      let first_last : first ≤ last =
        (bounded first cs c (omega (arith, p))).1 (omega (arith, at_first, p)) in
      let all : start + rounds ≡ suc last = omega (arith, first_last) in
      let same = overwrite_outside f offset cs in
      rw (range_eq offset (length input) cs p (omega (arith, o, c))) (
        Ensures-bind _ _ fails
          (write_blocks z store ino params offset end new_size cs input rounds start w) _
          (write_blocks_lem z store ino params fails sound offset new_size cs input m (omega arith)
            f size size rounds start w
            (λ j l.
              let b : j * cs < end =
                (bounded j cs c (omega (arith, p))).0 (omega (arith, l, all)) in
              (omega (arith, b, o), omega (arith, b)))
            (omega arith) (λ none_left. absurd (omega (arith, none_left, all, first_last)))
            (record {
              geometry = file.geometry;
              done_part = λ j l.
                  LoadsBlock-cong z store ino params f (overwrite f offset input) size new_size cs j
                    w (omega arith)
                    (λ i k. sym (same j i input p (omega (arith, o, c)) k (inl (omega (arith, l)))))
                    (file.block j);
              todo_part = λ j l. file.block j;
            }))
          (λ _ w' h. (
            refl,
            record {
              geometry = h.geometry;
              block = λ j. elim (Bool-cases (ltb j (suc last))) [
                | inl below ↦ h.done_part j (ground (arith, below, all))
                | inr above ↦
                    LoadsBlock-cong z store ino params f (overwrite f offset input) size new_size cs
                      j w' (omega arith)
                      (λ i k.
                        sym
                          (same j i input p (omega (arith, o, c)) k (inr (ground (arith, above)))))
                      (h.todo_part j (ground (arith, above, all)))
              ];
            },
          )))

  -- On a file with chunks of 1 byte to 256 MiB, for a write of at least one byte whose end plus
  -- one chunk does not pass 2^64 and that starts at most 1 GiB past the end, over a lawful store
  -- and codec: write_at returns the number of bytes and leaves the file overwritten by them, with
  -- zeros in the hole, and as long as the larger of the old size and the write's end; every error
  -- leaves a state that an error of the store or of the codec may leave, so there is none where
  -- these do not fail.
  pub write_at-overwrite :
      (f : ℕ → ℕ) (offset size cs : ℕ) (b : ℕ) (bs : Bytes) (w : W)
      → 0 < cs
      → cs ≤ max_decompressed_block
      → offset + length (b ∷ bs) + cs ≤ u64_mod
      → offset ≤ size + max_sparse_extension
      → IsFile z store ino params f size cs w
      → Ensures
          (λ n w'.
            (n ≡ length (b ∷ bs))
            × IsFile z store ino params
                (overwrite f offset (b ∷ bs))
                (max size (offset + length (b ∷ bs)))
                cs
                w')
          fails
          (write_at z store ino params offset (b ∷ bs) w)
  unfolding write_at write_found
  write_at-overwrite f offset size cs b bs w c m o near file =
      let e : ltb (offset + length (b ∷ bs)) u64_mod ≡ true = ground (arith, o, c) in
      let e' : ltb size offset && ltb max_sparse_extension (offset - size) ≡ false =
        ground (arith, near) in
      rw (write_at, file.geometry, write_found, e, e')
        (write_checked_lem f offset size cs (b ∷ bs) w (omega arith) c m o file)

  -- On a file, a write of at least one byte that would end at or past 2^64, or that starts more
  -- than 1 GiB past the end, is refused as invalid input and changes nothing.
  pub write_at-invalid_input :
      (offset size cs : ℕ) (b : ℕ) (bs : Bytes) (w : W)
      → store.block_geometry w ino ≡ some (size, cs)
      → (u64_mod ≤ offset + length (b ∷ bs)) ⊎ (size + max_sparse_extension < offset)
      → write_at z store ino params offset (b ∷ bs) w ≡ (err invalid_input, w)
  unfolding write_at write_found
  write_at-invalid_input offset size cs b bs w g bad =
      rw (write_at, g, write_found)
        (elim (Bool-cases (ltb (offset + length (b ∷ bs)) u64_mod)) [
          | inr over ↦ rw (write_found, over) refl
          | inl in_range ↦
              let e : ltb size offset && ltb max_sparse_extension (offset - size) ≡ true =
                elim bad [
                  | inl over ↦ absurd (ground (arith, over, in_range))
                  | inr far ↦ ground (arith, far)
                ] in
              rw (write_found, in_range, e) refl
        ])
