-- ===== src/Rmw/Write.antt =====
-- crates/scrollz/src/core/rmw.rs: a write block by block.
use fuse_scrollfs.Bytes.{Bytes, checked_add, fit, slice, splice, u64_mod}
use fuse_scrollfs.Chunk.{add64, block_range, sub64}
use fuse_scrollfs.Codec.{Zstd}
use fuse_scrollfs.Prelude.{
  Bool, [], if◌then◌else◌, leb, length, ltb, max, min, none, some, suc, zero, ℕ, ◌%◌, ◌&&◌, ◌*◌,
  ◌+◌, ◌-◌, ◌/◌, ◌==◌, ◌^◌, ◌∷◌,
}
use fuse_scrollfs.Prelude.Exec.{Exec, continue_with, lift, pure, ◌>>=◌, ◌>>◌}
use fuse_scrollfs.Prelude.Result.{Result, err, invalid_input, not_found, ok}
use fuse_scrollfs.Rmw.Block.{store_plain_block}
use fuse_scrollfs.Rmw.Load.{CodecParams, load_plain_block}
use fuse_scrollfs.Store.{Store}

abbrev pub max_sparse_extension : ℕ
max_sparse_extension = 2 ^ 30

abbrev pub div_ceil : ℕ → ℕ → ℕ
div_ceil a b = if a % b == 0 then a / b else a / b + 1

-- Where the write meets a block, and how long the block is afterwards.
pub record Span : Type 0 where
  pub block_start : ℕ
  pub w_start : ℕ
  pub w_end : ℕ
  pub logical_end : ℕ

module _ (offset write_end new_size cs : ℕ) where
  unfoldable pub span : ℕ → Span
  span idx =
      let block_start = (idx * cs) % u64_mod in
      let block_end = add64 block_start cs in
      let w_start = max offset block_start in
      record {
        block_start = block_start;
        w_start = w_start;
        w_end = max (min write_end block_end) w_start;
        logical_end = min block_end new_size;
      }

abbrev pub logical_len : Span → ℕ
logical_len s = sub64 s.logical_end s.block_start

abbrev pub full_overwrite : Span → Bool
full_overwrite s = leb s.w_start s.block_start && leb s.logical_end s.w_end

-- The old bytes brought to the block's length, with the bytes of the write that fall in it.
unfoldable pub patch : ℕ → Bytes → Span → Bytes → Bytes
patch offset input s old =
    let plain = fit (logical_len s) old in
    if ltb s.w_start s.w_end
    then splice plain (s.w_start - s.block_start)
        (slice (s.w_start - offset) (s.w_end - s.w_start) input)
    else plain

module _ {W : Type 0} (z : Zstd) (store : Store W) (ino : ℕ) (params : CodecParams) where
  unfoldable pub old_plain : Span → ℕ → W → Result Bytes
  old_plain s idx w = if full_overwrite s then ok [] else load_plain_block z params store w ino idx

  module _ (offset write_end new_size cs : ℕ) (input : Bytes) where
    unfoldable pub write_block : ℕ → Exec W (Unit {0})
    write_block idx w =
        continue_with
          (λ old.
            store_plain_block z store ino params idx
              (patch offset input (span offset write_end new_size cs idx) old) new_size)
          (old_plain (span offset write_end new_size cs idx) idx w, w)

    -- `for idx in first..first + rounds`.
    unfoldable pub write_blocks : ℕ → ℕ → Exec W (Unit {0})
    write_blocks zero first = pure tt
    write_blocks (suc rounds) first = write_block first >> write_blocks rounds (suc first)

  unfoldable pub write_checked : ℕ → ℕ → Bytes → ℕ → ℕ → Exec W ℕ
  write_checked offset write_end input old_size cs =
      let (first, last) = block_range offset (length input) cs in
      let loop_start = min first (div_ceil old_size cs) in
      write_blocks offset write_end (max old_size write_end) cs input (suc last - loop_start)
        loop_start
      >>= λ _. pure (length input)

  unfoldable pub write_found : ℕ → Bytes → ℕ → ℕ → Exec W ℕ
  write_found offset input old_size cs = elim (checked_add offset (length input)) [
    | none ↦ lift (err invalid_input)
    | some write_end ↦
        if ltb old_size offset && ltb max_sparse_extension (offset - old_size)
        then lift (err invalid_input)
        else write_checked offset write_end input old_size cs
  ]

  unfoldable pub write_at : ℕ → Bytes → Exec W ℕ
  write_at offset [] w = (ok 0, w)
  write_at offset (b ∷ bs) w = elim (store.block_geometry w ino) [
    | none ↦ (err not_found, w)
    | some (old_size, cs) ↦ write_found offset (b ∷ bs) old_size cs w
  ]
