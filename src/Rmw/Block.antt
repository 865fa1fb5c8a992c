-- ===== src/Rmw/Block.antt =====
-- Of crates/scrollz/src/core/rmw.rs.
-- One block compressed and handed to the store.
use fuse_scrollfs.Archive.{head_cache_bytes}
use fuse_scrollfs.Bytes.{Bytes}
use fuse_scrollfs.Codec.{Zstd, plain}
use fuse_scrollfs.Prelude.{Bool, if◌then◌else◌, leb, length, ltb, not, take, ℕ, ◌==◌, ◌||◌}
use fuse_scrollfs.Prelude.Exec.{Exec, lift, pure, ◌>>=◌, ◌>>◌}
use fuse_scrollfs.Rmw.Load.{CodecParams, compress_plain}
use fuse_scrollfs.Store.{Store, StoredBlock}

abbrev pub stored_block : Bytes × Bool → StoredBlock
stored_block packed = record { bytes = packed.0; stored_verbatim = packed.1 }

module _ {W : Type 0} (z : Zstd) (store : Store W) (ino : ℕ) (params : CodecParams) where
  -- Only for a full block 0 that other bytes follow.
  unfoldable pub maybe_build_head_cache : ℕ → Bytes → ℕ → Exec W (Unit {0})
  maybe_build_head_cache idx plain new_size =
      if not (idx == 0) || ltb (length plain) head_cache_bytes || leb new_size (length plain)
      then pure tt
      else lift (compress_plain z params (take head_cache_bytes plain)) >>= λ packed.
          store.set_head_cache ino (packed.0) (packed.1) head_cache_bytes

  unfoldable pub store_plain_block : ℕ → Bytes → ℕ → Exec W (Unit {0})
  store_plain_block idx plain new_size = lift (compress_plain z params plain) >>= λ packed.
      store.put_block ino idx (stored_block packed) new_size
      >> maybe_build_head_cache idx plain new_size

  unfoldable pub seal_plain_block : ℕ → Bytes → ℕ → Exec W (Unit {0})
  seal_plain_block idx plain new_size = lift (compress_plain z params plain) >>= λ packed.
      store.seal_tail_block ino idx (stored_block packed) new_size
      >> maybe_build_head_cache idx plain new_size
