-- ===== src/Rmw/Truncate.antt =====
-- crates/scrollz/src/core/rmw.rs: truncation, which also extends a file with zeros.
use fuse_scrollfs.Bytes.{Bytes, fit, u64_mod}
use fuse_scrollfs.Codec.{Zstd, plain}
use fuse_scrollfs.Prelude.{
  if◌then◌else◌, length, ltb, min, none, not, some, ℕ, ◌%◌, ◌&&◌, ◌*◌, ◌+◌, ◌-◌, ◌/◌, ◌==◌,
}
use fuse_scrollfs.Prelude.Exec.{Exec, continue_with, pure, ◌>>◌}
use fuse_scrollfs.Prelude.Result.{err, not_found}
use fuse_scrollfs.Rmw.Block.{store_plain_block}
use fuse_scrollfs.Rmw.Load.{CodecParams, load_plain_block}
use fuse_scrollfs.Rmw.Write.{div_ceil}
use fuse_scrollfs.Store.{Store}

-- The block of the last byte of a file of this size.
abbrev pub last_block : ℕ → ℕ → ℕ
last_block size cs = if size == 0 then 0 else (size - 1) / cs

abbrev pub grow : ℕ → Bytes → Bytes
grow want plain = if ltb (length plain) want then fit want plain else plain

module _ {W : Type 0} (z : Zstd) (store : Store W) (ino : ℕ) (params : CodecParams) where
  -- The bytes of a block are changed and stored again.
  unfoldable pub rewrite_block : (Bytes → Bytes) → ℕ → ℕ → Exec W (Unit {0})
  rewrite_block change idx new_size w =
      continue_with (λ plain. store_plain_block z store ino params idx (change plain) new_size)
        (load_plain_block z params store w ino idx, w)

  unfoldable pub shrink : ℕ → ℕ → Exec W (Unit {0})
  shrink new_size cs =
      if not (new_size == 0) && not (new_size % cs == 0)
      then rewrite_block (fit (new_size % cs)) (last_block new_size cs) new_size
        >> store.truncate_blocks ino (last_block new_size cs + 1) new_size
      else store.truncate_blocks ino (div_ceil new_size cs) new_size

  unfoldable pub extend : ℕ → ℕ → ℕ → Exec W (Unit {0})
  extend old_size new_size cs =
      let block = last_block old_size cs in
      let block_end = ((block + 1) * cs) % u64_mod in
      if ltb 0 old_size && ltb old_size block_end
      then rewrite_block (grow (min block_end new_size - block * cs)) block new_size
      else store.truncate_blocks ino (div_ceil old_size cs) new_size

  unfoldable pub truncate_found : ℕ → ℕ → ℕ → Exec W (Unit {0})
  truncate_found old_size cs new_size =
      if new_size == old_size
      then pure tt
      else if ltb new_size old_size
      then shrink new_size cs
      else extend old_size new_size cs

  unfoldable pub truncate : ℕ → Exec W (Unit {0})
  truncate new_size w = elim (store.block_geometry w ino) [
    | none ↦ (err not_found, w)
    | some (old_size, cs) ↦ truncate_found old_size cs new_size w
  ]
