-- ===== src/Shadow/Tests/Durables.antt =====
-- The commit of a session over an empty archive: a cut, a block, and a gap before it.
use fuse_scrollfs.Archive.{data_start}
use fuse_scrollfs.Archive.Crash.{OldOrNew}
use fuse_scrollfs.Archive.Crash.Commit.{Committable, next_archive}
use fuse_scrollfs.Archive.Index.{serialize_index}
use fuse_scrollfs.Archive.Superblock.{serialize_superblock}
use fuse_scrollfs.Archive.Tests.{
  empty_archive, image, sum32, sum32-IsCrc32, updater, updater-Tracks,
}
use fuse_scrollfs.Archive.Updater.{
  append_bytes, clear_head_cache, fill_gap, io_write, set_block, truncate,
}
use fuse_scrollfs.BlockCache.{keyed_nat, keyed_pair}
use fuse_scrollfs.BlockIo.FaultIo.{apply_all, fault_block_io, from_bytes, write_or_fail}
use fuse_scrollfs.Prelude.{[], arith, refl, some, true, ◌∷◌}
use fuse_scrollfs.Prelude.Exec.{Ensures}
use fuse_scrollfs.Rmw.Write.{write_at}
use fuse_scrollfs.Shadow.Buffer.{WriteSession, cleared}
use fuse_scrollfs.Shadow.Commit.{commit_blocks, set_blocks, stage_blocks}
use fuse_scrollfs.Shadow.Durable.{Durable, IsOpen, commit_blocks-Durable}

abbrev gap_session : WriteSession
gap_session = record {
  dirty = (1, record { bytes = 5 ∷ 6 ∷ []; stored_verbatim = true }) ∷ [];
  size = 6;
  chunk_size = 4;
  truncate_to = some 0;
  head_cache = cleared;
}

updater-IsOpen : IsOpen sum32 updater data_start empty_archive
unfolding from_bytes image apply_all serialize_superblock
updater-IsOpen = record {
  placed = record {
    blocks = record { tracks = updater-Tracks; entries = tt };
    long = omega arith;
    chunk = refl;
  };
  index = refl;
  no_journal = refl;
}

gap_session-Committable : Committable (stage_blocks sum32 gap_session updater).1
unfolding stage_blocks set_blocks set_block fill_gap append_bytes io_write write_at write_or_fail
    truncate clear_head_cache serialize_index from_bytes fault_block_io
gap_session-Committable = record {
  no_journal = refl;
  no_journal_len = refl;
  seq = omega arith;
  chunk_size = omega arith;
  chunk_size-lt = omega arith;
  size = omega arith;
  entries_fit = omega arith;
  entries_in = omega arith;
  room = omega arith;
  cached = tt;
}

commit_blocks-Durable_example :
    Ensures
      (λ _ v.
        Durable sum32 sum32-IsCrc32 gap_session updater empty_archive
          (stage_blocks sum32 gap_session updater).1
          v)
      (OldOrNew sum32 empty_archive (next_archive sum32 (stage_blocks sum32 gap_session updater).1))
      (commit_blocks sum32 gap_session updater)
commit_blocks-Durable_example =
    commit_blocks-Durable sum32 sum32-IsCrc32 gap_session updater empty_archive data_start
      updater-IsOpen (refl, tt) gap_session-Committable
