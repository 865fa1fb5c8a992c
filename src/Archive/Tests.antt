-- ===== src/Archive/Tests.antt =====
-- A small archive, on which the theorems about crates/scrollz/src/archive are tried. Its checksum is
-- the sum of the bytes.
mod Commits
mod Formats
mod Restarts
mod Writers
use fuse_scrollfs.Archive.{IsCrc32, data_start, magic, sb_a_offset, sb_b_offset, sb_len, version}
use fuse_scrollfs.Archive.Crash.{Tracks}
use fuse_scrollfs.Archive.Index.{parse_index}
use fuse_scrollfs.Archive.Reader.{ActiveArchive}
use fuse_scrollfs.Archive.Recovery.{Holds}
use fuse_scrollfs.Archive.Superblock.{SuperBlock, parse_superblock, serialize_superblock}
use fuse_scrollfs.Archive.Updater.{Updater}
use fuse_scrollfs.BlockIo.FaultIo.{FaultIo, fault_block_io, from_bytes}
use fuse_scrollfs.Bytes.{Bytes, to_le, u32_mod}
use fuse_scrollfs.Prelude.{[], arith, false, inl, none, refl, replicate, ℕ, ◌%◌, ◌++◌, ◌+◌, ◌∷◌}

abbrev pub sum : Bytes → ℕ
sum [] = 0
sum (b ∷ bs) = b + sum bs

abbrev pub sum32 : Bytes → ℕ
sum32 bs = sum bs % u32_mod

pub sum32-IsCrc32 : IsCrc32 sum32
sum32-IsCrc32 = record { is_u32 = λ bs. omega arith }

-- No block, chunks of four bytes.
abbrev pub empty_sb : SuperBlock
empty_sb = record {
  seq = 1;
  chunk_size = 4;
  uncompressed_size = 0;
  chunk_count = 0;
  index_offset = data_start;
  index_len = 0;
  index_crc = 0;
  tail_journal_offset = 0;
  tail_journal_len = 0;
  head_cache = none;
}

abbrev pub empty_archive : ActiveArchive
empty_archive = record { sb = empty_sb; off = sb_a_offset; index = []; tail_journal = none }

-- The header, slot A and an empty slot B.
unfoldable pub image : Bytes
unfolding serialize_superblock
image = magic ++ to_le 4 version ++ serialize_superblock sum32 empty_sb ++ replicate sb_len 0

pub image-Holds : Holds sum32 image data_start empty_archive
unfolding image parse_superblock parse_index
image-Holds = record {
  start = omega arith;
  reach-le = omega arith;
  is_slot = inl refl;
  slot = refl;
  loser = tt;
  usable = record {
    chunk_size = omega arith;
    count = omega arith;
    index_len = refl;
    index_start = omega arith;
    index_end = omega arith;
    reach-lt = omega arith;
    index_crc = refl;
    parsed = refl;
    entries = tt;
    journal = refl;
  };
}

-- The updater behind it.
abbrev pub updater : Updater FaultIo
updater = record {
  io = from_bytes image;
  chunk_size = 4;
  index = [];
  uncompressed_size = 0;
  write_cursor = data_start;
  head_cache = none;
  active_seq = 1;
  inactive_off = sb_b_offset;
  committed_index = (data_start, 0, 0);
  committed_head_cache = none;
  journal_offset = none;
  journal_len = 0;
  index_dirty = false;
}

pub updater-Tracks : Tracks sum32 updater data_start empty_archive
unfolding from_bytes
updater-Tracks = record {
  honest = record { tear_write = refl; soft_syncs = refl };
  holds = image-Holds;
  pending = tt;
  cursor = omega arith;
  active_seq = refl;
  inactive_off = refl;
}
