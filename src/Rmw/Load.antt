-- ===== src/Rmw/Load.antt =====
-- Of crates/scrollz/src/core/rmw.rs.
-- The codec of a file, and a block read through it.
use fuse_scrollfs.Bytes.{Bytes}
use fuse_scrollfs.Codec.{Algo, SharedDict, Zstd, compress_block, decompress_block, plain}
use fuse_scrollfs.Prelude.{Bool, Option, [], none, some, ℕ}
use fuse_scrollfs.Prelude.Result.{Result, ok, ◌>>=◌}
use fuse_scrollfs.Store.{Store, StoredBlock}
use mathlib.Core.Int.{ℤ}

pub record CodecParams : Type 0 where
  pub algo : Algo
  pub level : ℤ
  pub dict : Option SharedDict

module _ (z : Zstd) (params : CodecParams) where
  -- A block that is not there has no bytes.
  abbrev pub plain_of : Option StoredBlock → Result Bytes
  plain_of none = ok []
  plain_of (some b) = decompress_block z b.bytes params.algo b.stored_verbatim params.dict

  unfoldable pub load_plain_block : {W : Type 0} → Store W → W → ℕ → ℕ → Result Bytes
  load_plain_block store w ino idx = store.get_block w ino idx >>= plain_of

  unfoldable pub compress_plain : Bytes → Result (Bytes × Bool)
  compress_plain plain = compress_block z plain params.algo params.level params.dict
