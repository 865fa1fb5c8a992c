-- ===== src/Archive/Tests/Restarts.antt =====
-- A block is written and not synced, and the machine stops.
use fuse_scrollfs.Archive.{data_start}
use fuse_scrollfs.Archive.Crash.{Tracks}
use fuse_scrollfs.Archive.Crash.Reopen.{HasHeader, Reopened, from_io-crash_with_mask}
use fuse_scrollfs.Archive.Superblock.{serialize_superblock}
use fuse_scrollfs.Archive.Tests.{empty_archive, image, image-Holds, sum32, updater}
use fuse_scrollfs.Archive.Updater.{Updater}
use fuse_scrollfs.BlockIo.FaultIo.{FaultIo, crash_with_mask, fault_block_io, from_bytes}
use fuse_scrollfs.Prelude.{[], arith, refl, ◌∷◌}

abbrev unsynced : Updater FaultIo
unsynced = record updater {
  io = record (from_bytes image) { dirty = record { off = data_start; bytes = 7 ∷ 8 ∷ [] } ∷ [] };
  write_cursor = 270;
}

unsynced-Tracks : Tracks sum32 unsynced data_start empty_archive
unfolding from_bytes
unsynced-Tracks = record {
  honest = record { tear_write = refl; soft_syncs = refl };
  holds = image-Holds;
  pending = (omega arith, tt);
  cursor = omega arith;
  active_seq = refl;
  inactive_off = refl;
}

unsynced-HasHeader : HasHeader unsynced.io.durable
unfolding from_bytes image serialize_superblock
unsynced-HasHeader = record { magic_eq = refl; version_eq = refl }

from_io-crash_with_mask_example :
    (v : Updater FaultIo) × Reopened sum32
      (crash_with_mask unsynced.io 1)
      data_start
      empty_archive
      v
from_io-crash_with_mask_example =
    from_io-crash_with_mask sum32 unsynced data_start empty_archive 1 unsynced-Tracks
      unsynced-HasHeader
