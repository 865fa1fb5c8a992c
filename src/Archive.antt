-- ===== src/Archive.antt =====
-- crates/scrollz/src/archive/mod.rs: the layout constants and the types that the parts of the
-- archive share. The checksum of format.rs is the crate `crc32fast`, a parameter of what uses it.
pub mod Superblock
pub mod Journal
pub mod Index
pub mod Validate
pub mod Reader
pub mod Updater
pub mod Recovery
pub mod Crash
pub mod Writer
pub mod Tests
use Prim.Native.Nat.{bit_and}
use fuse_scrollfs.Prelude.{ℕ, ◌+◌, ◌*◌, ◌%◌, ◌<◌, Bool, not, Option, [], ◌∷◌, ◌==◌}
use fuse_scrollfs.Bytes.{Bytes, u32_mod}

-- `b"ZIPFSAR\x01"`.
abbrev pub magic : Bytes
magic = b'Z' ∷ b'I' ∷ b'P' ∷ b'F' ∷ b'S' ∷ b'A' ∷ b'R' ∷ 1 ∷ []

abbrev pub version : ℕ
version = 2

abbrev pub header_len : ℕ
header_len = 12

abbrev pub sb_len : ℕ
sb_len = 128

abbrev pub sb_a_offset : ℕ
sb_a_offset = header_len

abbrev pub sb_b_offset : ℕ
sb_b_offset = header_len + sb_len

abbrev pub data_start : ℕ
data_start = header_len + 2 * sb_len

abbrev pub index_entry_len : ℕ
index_entry_len = 24

abbrev pub head_cache_bytes : ℕ
head_cache_bytes = 65536

abbrev pub flag_verbatim : ℕ
flag_verbatim = 1

pub record ChunkEntry : Type 0 where
  pub offset : ℕ
  pub clen : ℕ
  pub flags : ℕ
  pub block_crc : ℕ

-- `flags & FLAG_VERBATIM != 0`.
unfoldable pub is_verbatim : ChunkEntry → Bool
is_verbatim e = not (bit_and e.flags flag_verbatim == 0)

pub record HeadCache : Type 0 where
  pub offset : ℕ
  pub clen : ℕ
  pub rawlen : ℕ
  pub verbatim : Bool

pub record Footer : Type 0 where
  pub chunk_size : ℕ
  pub uncompressed_size : ℕ
  pub chunk_count : ℕ
  pub index_offset : ℕ
  pub crc : ℕ
  pub head_cache : Option HeadCache

-- What the code relies on of `crc32fast::hash`: it returns a u32.
pub record IsCrc32 (crc32 : Bytes → ℕ) : Type 0 where
  pub is_u32 : (bs : Bytes) → crc32 bs < u32_mod
