-- ===== src/Shadow/Backend.antt =====
-- The store of crates/scrollz/src/store/shadow.rs behind the interface that the core uses.
use fuse_scrollfs.BlockIo.{BlockIo}
use fuse_scrollfs.Bytes.{Bytes}
use fuse_scrollfs.Dict.{Keyed}
use fuse_scrollfs.Prelude.{true, ℕ}
use fuse_scrollfs.Shadow.Commit.{append_tail, seal_tail_block}
use fuse_scrollfs.Shadow.Read.{block_geometry, get_block, read_head}
use fuse_scrollfs.Shadow.State.{Shadow, put_block, set_head_cache, truncate_blocks}
use fuse_scrollfs.Store.{Store}

module _ (crc32 : Bytes → ℕ) (default_chunk_size : ℕ) {P W : Type 0} ⦃path : Keyed P⦄
    ⦃b : BlockIo W⦄ where
  unfoldable pub shadow_store : Store (Shadow P W)
  shadow_store = record {
    get_block = get_block crc32;
    block_geometry = block_geometry crc32;
    put_block = put_block crc32 default_chunk_size;
    truncate_blocks = truncate_blocks crc32 default_chunk_size;
    supports_tail_journal = true;
    append_tail = append_tail crc32;
    seal_tail_block = seal_tail_block crc32;
    set_head_cache = set_head_cache crc32 default_chunk_size;
    read_head_cache = read_head crc32;
  }
