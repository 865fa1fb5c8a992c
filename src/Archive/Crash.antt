-- ===== src/Archive/Crash.antt =====
-- Crash safety of crates/scrollz/src/archive/updater.rs over the simulated device: what every crash
-- leaves behind opens, as the last committed archive or as the one that a commit was about to make.
pub mod Blocks
pub mod Commit
pub mod Journal
pub mod JournalCommit
pub mod Kept
pub mod ReadBack
pub mod Reopen
pub mod Seen
pub mod SetBlock
pub mod Slot
pub mod Staging
pub mod Truncate
pub mod TruncateCommit
use fuse_scrollfs.Archive.Reader.{ActiveArchive, load_active}
use fuse_scrollfs.Archive.Recovery.{Holds}
use fuse_scrollfs.Archive.Recovery.Agree.{Holds-agree}
use fuse_scrollfs.Archive.Recovery.Opens.{load_active-Holds}
use fuse_scrollfs.Archive.Updater.{Updater, other_slot}
use fuse_scrollfs.BlockIo.FaultIo.{FaultIo, crash_with_mask, fault_block_io, from_bytes}
use fuse_scrollfs.BlockIo.FaultIo.Crash.{Extends-crash_with_mask, IsHonest, Pending}
use fuse_scrollfs.Bytes.{Bytes}
use fuse_scrollfs.Prelude.{length, ℕ, ◌≡◌, ◌≤◌, ◌⊎◌}
use fuse_scrollfs.Prelude.Result.{ok}

module _ (crc32 : Bytes → ℕ) where
  -- What a crash with this mask leaves opens as the archive.
  abbrev pub Opens : FaultIo → ℕ → ActiveArchive → Type 0
  Opens io mask a =
      load_active crc32 (from_bytes (crash_with_mask io mask)) (length (crash_with_mask io mask))
      ≡ ok a

  -- The updater between two commits: the durable bytes hold the committed archive in their first
  -- `reach` bytes, and all that is written since lies behind them.
  pub record Tracks (u : Updater FaultIo) (reach : ℕ) (a : ActiveArchive) : Type 0 where
    pub honest : IsHonest u.io
    pub holds : Holds crc32 u.io.durable reach a
    pub pending : Pending reach u.io.dirty
    pub cursor : reach ≤ u.write_cursor
    pub active_seq : u.active_seq ≡ a.sb.seq
    pub inactive_off : u.inactive_off ≡ other_slot a.off

  -- After an error every crash still leaves the old archive or the new one.
  abbrev pub OldOrNew : ActiveArchive → ActiveArchive → Updater FaultIo → Type 0
  OldOrNew a new u = (mask : ℕ) → Opens u.io mask a ⊎ Opens u.io mask new

  pub Opens-Holds :
      (io : FaultIo) (mask reach : ℕ) (a : ActiveArchive)
      → Holds crc32 (crash_with_mask io mask) reach a
      → Opens io mask a
  Opens-Holds io mask reach a h = load_active-Holds crc32 (crash_with_mask io mask) reach a h

  -- Pending writes behind `reach` do not endanger the archive.
  pub Opens-Pending :
      (io : FaultIo) (reach : ℕ) (a : ActiveArchive)
      → Holds crc32 io.durable reach a
      → Pending reach io.dirty
      → (mask : ℕ) → Opens io mask a
  Opens-Pending io reach a h p mask =
      let e = Extends-crash_with_mask io reach mask h.reach-le p in
      Opens-Holds io mask reach a
        (Holds-agree crc32 io.durable (crash_with_mask io mask) reach e.same a e.long h)

  pub Opens-Tracks :
      (u : Updater FaultIo) (reach : ℕ) (a : ActiveArchive)
      → Tracks u reach a
      → (mask : ℕ) → Opens u.io mask a
  Opens-Tracks u reach a t = Opens-Pending u.io reach a t.holds t.pending
