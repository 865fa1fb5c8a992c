-- ===== src/Archive/Tests/Commits.antt =====
-- Updates and commits of a small archive.
use fuse_scrollfs.Archive.{data_start}
use fuse_scrollfs.Archive.Crash.{OldOrNew, Tracks}
use fuse_scrollfs.Archive.Crash.Blocks.{BlockSet, set_block-BlockSet}
use fuse_scrollfs.Archive.Crash.Commit.{CommitDone, Committable, commit-atomic, next_archive}
use fuse_scrollfs.Archive.Crash.Journal.{Journaled, append_journal-Journaled}
use fuse_scrollfs.Archive.Crash.JournalCommit.{
  JournalDone, JournalReady, commit_journal-atomic, journal_archive,
}
use fuse_scrollfs.Archive.Crash.SetBlock.{Placed}
use fuse_scrollfs.Archive.Crash.TruncateCommit.{TruncatedTo, commit-truncate}
use fuse_scrollfs.Archive.Index.{serialize_index}
use fuse_scrollfs.Archive.Journal.{serialize_journal_record}
use fuse_scrollfs.Archive.Superblock.{serialize_superblock}
use fuse_scrollfs.Archive.Tests.{
  empty_archive, image, image-Holds, sum32, sum32-IsCrc32, updater, updater-Tracks,
}
use fuse_scrollfs.Archive.Updater.{Updater, append_journal, set_block, truncate}
use fuse_scrollfs.Archive.Updater.Commit.{commit, commit_journal}
use fuse_scrollfs.BlockIo.FaultIo.{
  FaultIo, PendingWrite, apply, apply_all, fault_block_io, from_bytes,
}
use fuse_scrollfs.Prelude.{[], arith, refl, some, true, ◌++◌, ◌∷◌}
use fuse_scrollfs.Prelude.Exec.{Ensures}

updater-Committable : Committable updater
unfolding serialize_index
updater-Committable = record {
  no_journal = refl;
  no_journal_len = refl;
  seq = omega arith;
  chunk_size = omega arith;
  chunk_size-lt = omega arith;
  size = omega arith;
  entries_fit = tt;
  entries_in = tt;
  room = omega arith;
  cached = tt;
}

commit-atomic_example :
    Ensures
      (λ _ v. CommitDone sum32 sum32-IsCrc32 updater v)
      (OldOrNew sum32 empty_archive (next_archive sum32 updater))
      (commit sum32 updater)
commit-atomic_example =
    commit-atomic sum32 sum32-IsCrc32 updater data_start empty_archive updater-Tracks
      updater-Committable

set_block-BlockSet_example :
    Ensures
      (λ _ v. BlockSet sum32 data_start empty_archive updater 2 (7 ∷ 8 ∷ []) true v)
      (λ v. Tracks sum32 v data_start empty_archive)
      (set_block sum32 2 (7 ∷ 8 ∷ []) true 10 updater)
set_block-BlockSet_example =
    set_block-BlockSet sum32 data_start empty_archive updater 2 (7 ∷ 8 ∷ []) true 10
      (record { tracks = updater-Tracks; entries = tt })

updater-Journaled : Journaled sum32 updater []
unfolding from_bytes image apply_all serialize_superblock
updater-Journaled = record {
  start = omega arith;
  cursor_staged = omega arith;
  journal = (refl, refl);
}

append_journal-Journaled_example :
    Ensures
      (λ _ v. Tracks sum32 v data_start empty_archive × Journaled sum32 v ([] ++ (5 ∷ 6 ∷ []) ∷ []))
      (λ v. Tracks sum32 v data_start empty_archive)
      (append_journal sum32 (5 ∷ 6 ∷ []) updater)
append_journal-Journaled_example =
    append_journal-Journaled sum32 updater data_start empty_archive [] (5 ∷ 6 ∷ []) updater-Tracks
      updater-Journaled

-- The updater after that record was appended.
abbrev pending_record : PendingWrite
pending_record = record { off = data_start; bytes = serialize_journal_record sum32 (5 ∷ 6 ∷ []) }

abbrev journaled : Updater FaultIo
journaled = record updater {
  io = record (from_bytes image) { dirty = pending_record ∷ [] };
  write_cursor = 278;
  uncompressed_size = 2;
  journal_offset = some data_start;
  journal_len = 10;
}

journaled-Tracks : Tracks sum32 journaled data_start empty_archive
unfolding from_bytes
journaled-Tracks = record {
  honest = record { tear_write = refl; soft_syncs = refl };
  holds = image-Holds;
  pending = (omega arith, tt);
  cursor = omega arith;
  active_seq = refl;
  inactive_off = refl;
}

journaled-Journaled : Journaled sum32 journaled ((5 ∷ 6 ∷ []) ∷ [])
unfolding from_bytes image apply_all apply serialize_superblock serialize_journal_record
journaled-Journaled = record {
  start = omega arith;
  cursor_staged = omega arith;
  journal = (omega arith, omega arith, refl);
}

journaled-JournalReady : JournalReady journaled empty_archive ((5 ∷ 6 ∷ []) ∷ [])
journaled-JournalReady = record {
  index_offset = refl;
  index_len = refl;
  index_crc = refl;
  count = refl;
  chunk_size = refl;
  chunk_size-lt = omega arith;
  seq = omega arith;
  size = omega arith;
  cursor-lt = omega arith;
  cached = tt;
  some_journal = omega arith;
  payloads_fit = (omega arith, tt);
}

commit_journal-atomic_example :
    Ensures
      (λ _ v. JournalDone sum32 sum32-IsCrc32 journaled empty_archive ((5 ∷ 6 ∷ []) ∷ []) v)
      (OldOrNew sum32 empty_archive (journal_archive journaled empty_archive ((5 ∷ 6 ∷ []) ∷ [])))
      (commit_journal sum32 journaled)
commit_journal-atomic_example =
    commit_journal-atomic sum32 sum32-IsCrc32 journaled data_start empty_archive ((5 ∷ 6 ∷ []) ∷ [])
      journaled-Tracks journaled-Journaled journaled-JournalReady

-- The updater with two blocks and a head cache of their six bytes.
abbrev two_blocks : Updater FaultIo
two_blocks = record updater {
  io = record (from_bytes image) {
    dirty = record { off = data_start; bytes = 1 ∷ 2 ∷ 3 ∷ 4 ∷ 5 ∷ 6 ∷ [] } ∷ [];
  };
  index =
      record { offset = data_start; clen = 4; flags = 1; block_crc = 10 }
      ∷ record { offset = 272; clen = 2; flags = 1; block_crc = 11 }
      ∷ [];
  write_cursor = 274;
  uncompressed_size = 6;
  head_cache = some (1 ∷ 2 ∷ 3 ∷ 4 ∷ 5 ∷ 6 ∷ [], true, 6);
}

two_blocks-Placed : Placed sum32 data_start empty_archive 4 two_blocks
unfolding from_bytes image apply_all apply serialize_superblock
two_blocks-Placed = record {
  blocks = record {
    tracks = record {
      honest = record { tear_write = refl; soft_syncs = refl };
      holds = image-Holds;
      pending = (omega arith, tt);
      cursor = omega arith;
      active_seq = refl;
      inactive_off = refl;
    };
    entries = (omega arith, omega arith, (omega arith, omega arith, tt));
  };
  long = omega arith;
  chunk = refl;
}

one_block-Committable : Committable (truncate 1 4 two_blocks)
unfolding truncate serialize_index
one_block-Committable = record {
  no_journal = refl;
  no_journal_len = refl;
  seq = omega arith;
  chunk_size = omega arith;
  chunk_size-lt = omega arith;
  size = omega arith;
  entries_fit = omega arith;
  entries_in = omega arith;
  room = omega arith;
  cached = tt;
}

commit-truncate_example :
    Ensures
      (λ _ w.
        TruncatedTo sum32 sum32-IsCrc32 data_start empty_archive two_blocks two_blocks-Placed 1 4
          (truncate 1 4 two_blocks)
          w)
      (OldOrNew sum32 empty_archive (next_archive sum32 (truncate 1 4 two_blocks)))
      (commit sum32 (truncate 1 4 two_blocks))
commit-truncate_example =
    commit-truncate sum32 sum32-IsCrc32 data_start empty_archive two_blocks two_blocks-Placed 1 4
      one_block-Committable
