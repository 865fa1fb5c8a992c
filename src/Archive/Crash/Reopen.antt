-- ===== src/Archive/Crash/Reopen.antt =====
-- A restart: `from_io` of crates/scrollz/src/archive/updater.rs on what a crash left.
use fuse_scrollfs.Archive.{data_start, header_len, magic, version}
use fuse_scrollfs.Archive.Crash.{Tracks}
use fuse_scrollfs.Archive.Crash.Blocks.{EntriesIn-mono}
use fuse_scrollfs.Archive.Crash.ReadBack.{Extends-slice}
use fuse_scrollfs.Archive.Crash.SetBlock.{Placed}
use fuse_scrollfs.Archive.Reader.{ActiveArchive, check_header, footer_from_sb}
use fuse_scrollfs.Archive.Recovery.{Holds}
use fuse_scrollfs.Archive.Recovery.Agree.{Holds-agree}
use fuse_scrollfs.Archive.Recovery.Opens.{load_active-Holds, read_at-from_bytes}
use fuse_scrollfs.Archive.Updater.{Updater, other_slot}
use fuse_scrollfs.Archive.Updater.Open.{from_io, load_head_cache}
use fuse_scrollfs.Archive.Writer.Finished.{header}
use fuse_scrollfs.BlockIo.FaultIo.{
  FaultIo, apply_all, crash_with_mask, dirty_end, fault_block_io, from_bytes, len,
}
use fuse_scrollfs.BlockIo.FaultIo.Crash.{Extends, Extends-crash_with_mask}
use fuse_scrollfs.Bytes.{Bytes, bytes_eq, from_le, slice}
use fuse_scrollfs.Prelude.{
  ap, arith, false, if◌then◌else◌, length, ltb, none, refl, some, take, true, ℕ, ◌∙◌, ◌≡◌, ◌≤◌,
}
use fuse_scrollfs.Prelude.Result.{ok}
use native.Mathlib.Nat.{le_trans}

abbrev header_of : Bytes → Bytes
header_of img = slice 0 header_len img

-- The magic number and the version.
pub record HasHeader (img : Bytes) : Type 0 where
  pub magic_eq : bytes_eq (take 8 (header_of img)) magic ≡ true
  pub version_eq : from_le (slice 8 4 (header_of img)) ≡ version

module _ (crc32 : Bytes → ℕ) (img : Bytes) (reach : ℕ) (a : ActiveArchive) where
  -- An updater at the end of the bytes, with the fields of the archive that they hold.
  pub record Reopened (v : Updater FaultIo) : Type 0 where
    pub opened : from_io crc32 (from_bytes img) ≡ ok v
    pub placed : Placed crc32 reach a v.chunk_size v
    pub chunk_size : v.chunk_size ≡ a.sb.chunk_size
    pub index : v.index ≡ a.index
    pub size : v.uncompressed_size ≡ a.sb.uncompressed_size
    pub at_end : v.write_cursor ≡ length img
    pub journal_len : v.journal_len ≡ a.sb.tail_journal_len

  check_header-from_bytes :
      data_start ≤ length img → HasHeader img → check_header (from_bytes img) ≡ ok (length img)
  unfolding check_header fault_block_io len dirty_end from_bytes
  check_header-from_bytes l h =
      ground (arith, read_at-from_bytes crc32 img 0 header_len, h.magic_eq, h.version_eq)

  abbrev reopened : Updater FaultIo
  reopened = record {
    io = from_bytes img;
    chunk_size = a.sb.chunk_size;
    index = a.index;
    uncompressed_size = a.sb.uncompressed_size;
    write_cursor = length img;
    head_cache = load_head_cache crc32 (from_bytes img) (footer_from_sb a.sb) a.sb.head_cache;
    active_seq = a.sb.seq;
    inactive_off = other_slot a.off;
    committed_index = (a.sb.index_offset, a.sb.index_len, a.sb.index_crc);
    committed_head_cache = a.sb.head_cache;
    journal_offset = if ltb 0 a.sb.tail_journal_len then some a.sb.tail_journal_offset else none;
    journal_len = a.sb.tail_journal_len;
    index_dirty = false;
  }

  reopened-Placed : Holds crc32 img reach a → Placed crc32 reach a a.sb.chunk_size reopened
  unfolding from_bytes apply_all
  reopened-Placed h = record {
    blocks = record {
      tracks = record {
        honest = record { tear_write = refl; soft_syncs = refl };
        holds = h;
        pending = tt;
        cursor = h.reach-le;
        active_seq = refl;
        inactive_off = refl;
      };
      entries =
          EntriesIn-mono a.sb.index_offset (length img) a.index
            (omega (arith, h.usable.index_end, h.reach-le)) h.usable.entries;
    };
    long = omega arith;
    chunk = refl;
  }

  from_io-Reopened : Holds crc32 img reach a → HasHeader img → Reopened reopened
  unfolding from_io
  from_io-Reopened h header = record {
    opened =
        rw
          (
            check_header-from_bytes (le_trans h.start h.reach-le) header,
            load_active-Holds crc32 img reach a h,
          )
          refl;
    placed = reopened-Placed h;
    chunk_size = refl;
    index = refl;
    size = refl;
    at_end = refl;
    journal_len = refl;
  }

module _ (crc32 : Bytes → ℕ) where
  HasHeader-Extends :
      (reach : ℕ) (img img' : Bytes)
      → data_start ≤ reach
      → Extends reach img img'
      → HasHeader img
      → HasHeader img'
  HasHeader-Extends reach img img' l x h =
      let e : header_of img' ≡ header_of img =
        Extends-slice reach img img' 0 header_len x (omega (arith, l)) in
      record {
        magic_eq = ap (λ b. bytes_eq (take 8 b) magic) e ∙ h.magic_eq;
        version_eq = ap (λ b. from_le (slice 8 4 b)) e ∙ h.version_eq;
      }

  -- At any moment between two commits, with any writes pending behind the committed archive, if
  -- the durable bytes begin with the magic number and the version: whatever a crash keeps,
  -- from_io opens it, as an updater that tracks the committed archive again, at the end of the
  -- file, with its chunk size, size, index and journal length and every block between the header
  -- and the cursor.
  pub from_io-crash_with_mask :
      (u : Updater FaultIo) (reach : ℕ) (a : ActiveArchive) (mask : ℕ)
      → Tracks crc32 u reach a
      → HasHeader u.io.durable
      → (v : Updater FaultIo) × Reopened crc32 (crash_with_mask u.io mask) reach a v
  from_io-crash_with_mask u reach a mask t h =
      let img = crash_with_mask u.io mask in
      let x = Extends-crash_with_mask u.io reach mask t.holds.reach-le t.pending in
      (
        reopened crc32 img reach a,
        from_io-Reopened crc32 img reach a
            (Holds-agree crc32 u.io.durable img reach x.same a x.long t.holds)
            (HasHeader-Extends reach u.io.durable img t.holds.start x h),
      )
