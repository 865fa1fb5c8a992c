-- ===== src/Archive/Updater/Commit.antt =====
-- `commit` and `commit_journal` of crates/scrollz/src/archive/updater.rs.
use fuse_scrollfs.Archive.{HeadCache}
use fuse_scrollfs.Archive.Index.{serialize_index}
use fuse_scrollfs.Archive.Superblock.{SuperBlock, serialize_superblock}
use fuse_scrollfs.Archive.Updater.{Updater, append_bytes, flip_active, io_sync, io_write, unwrap_or}
use fuse_scrollfs.BlockIo.{BlockIo}
use fuse_scrollfs.Bytes.{Bytes}
use fuse_scrollfs.Prelude.{Bool, Option, false, length, none, some, ℕ, ◌+◌}
use fuse_scrollfs.Prelude.Exec.{Exec, gets, modify, pure, ◌>>=◌, ◌>>◌}

-- The superblock of the updater's fields, at a given place of the index and the head cache.
abbrev pub superblock_of : {W : Type 0} → Updater W → ℕ × ℕ × ℕ → Option HeadCache → SuperBlock
superblock_of u (index_offset, index_len, index_crc) head_cache = record {
  seq = u.active_seq + 1;
  chunk_size = u.chunk_size;
  uncompressed_size = u.uncompressed_size;
  chunk_count = length u.index;
  index_offset = index_offset;
  index_len = index_len;
  index_crc = index_crc;
  tail_journal_offset = unwrap_or u.journal_offset 0;
  tail_journal_len = u.journal_len;
  head_cache = head_cache;
}

module _ {W : Type 0} ⦃b : BlockIo W⦄ where
  -- The head cache, if there is one, goes before the index.
  unfoldable pub append_head_cache : Option (Bytes × Bool × ℕ) → Exec (Updater W) (Option HeadCache)
  append_head_cache none = pure none
  append_head_cache (some (bytes, verbatim, raw_len)) = do
    offset ← gets (λ u. u.write_cursor)
    append_bytes bytes
    pure (
        some
          (record { offset = offset; clen = length bytes; rawlen = raw_len; verbatim = verbatim }))

module _ (crc32 : Bytes → ℕ) {W : Type 0} ⦃b : BlockIo W⦄ where
  -- The write of the inactive slot and the second barrier, the commit point.
  unfoldable pub write_superblock : SuperBlock → Exec (Updater W) (Unit {0})
  write_superblock sb = do
    off ← gets (λ u. u.inactive_off)
    io_write off (serialize_superblock crc32 sb)
    io_sync

  unfoldable pub commit_journal : Exec (Updater W) (Unit {0})
  commit_journal = do
    io_sync
    u ← gets (λ u. u)
    write_superblock (superblock_of u u.committed_index u.committed_head_cache)
    modify (flip_active (u.active_seq + 1))

  -- From the index on.
  unfoldable pub commit_from : Option HeadCache → Exec (Updater W) (Unit {0})
  commit_from head_cache = do
    index_offset ← gets (λ u. u.write_cursor)
    index_bytes ← gets (λ u. serialize_index u.index)
    let index_crc = crc32 index_bytes
    append_bytes index_bytes
    io_sync
    u ← gets (λ u. u)
    write_superblock (superblock_of u (index_offset, length index_bytes, index_crc) head_cache)
    modify (λ v. flip_active (u.active_seq + 1) (record v {
      committed_index = (index_offset, length index_bytes, index_crc);
      committed_head_cache = head_cache;
      index_dirty = false;
    }))

  unfoldable pub commit : Exec (Updater W) (Unit {0})
  commit = do
    cached ← gets (λ u. u.head_cache)
    head_cache ← append_head_cache cached
    commit_from head_cache
