-- ===== src/Archive/Updater/Open.antt =====
-- `from_io` of crates/scrollz/src/archive/updater.rs.
use fuse_scrollfs.Archive.{Footer, HeadCache}
use fuse_scrollfs.Archive.Reader.{check_header, footer_from_sb, load_active, read_head_cache_bytes}
use fuse_scrollfs.Archive.Updater.{Updater, other_slot}
use fuse_scrollfs.BlockIo.{BlockIo}
use fuse_scrollfs.Bytes.{Bytes}
use fuse_scrollfs.Prelude.{Bool, Option, false, if◌then◌else◌, ltb, none, some, ℕ}
use fuse_scrollfs.Prelude.Result.{Result, ok, ◌>>=◌}

module _ (crc32 : Bytes → ℕ) {W : Type 0} ⦃b : BlockIo W⦄ where
  -- `sb.head_cache.and_then(...)`.
  unfoldable pub load_head_cache : W → Footer → Option HeadCache → Option (Bytes × Bool × ℕ)
  load_head_cache io footer none = none
  load_head_cache io footer (some hc) = elim (read_head_cache_bytes io footer hc) [
    | none ↦ none
    | some bytes ↦ some (bytes, hc.verbatim, hc.rawlen)
  ]

  -- Opening for update: the header, the active superblock, and the head cache if it is readable.
  unfoldable pub from_io : W → Result (Updater W)
  from_io io = do
    total_len ← check_header io
    active ← load_active crc32 io total_len
    ok (record {
      io = io;
      chunk_size = active.sb.chunk_size;
      index = active.index;
      uncompressed_size = active.sb.uncompressed_size;
      write_cursor = total_len;
      head_cache = load_head_cache io (footer_from_sb active.sb) active.sb.head_cache;
      active_seq = active.sb.seq;
      inactive_off = other_slot active.off;
      committed_index = (active.sb.index_offset, active.sb.index_len, active.sb.index_crc);
      committed_head_cache = active.sb.head_cache;
      journal_offset =
          if ltb 0 active.sb.tail_journal_len then some active.sb.tail_journal_offset else none;
      journal_len = active.sb.tail_journal_len;
      index_dirty = false;
    })
