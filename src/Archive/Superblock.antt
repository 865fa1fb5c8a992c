-- ===== src/Archive/Superblock.antt =====
-- crates/scrollz/src/archive/superblock.rs: the commit point's fixed slot of 128 bytes.
pub mod RoundTrip
use Prim.Native.Nat.{bit_and}
use fuse_scrollfs.Archive.{HeadCache, sb_len}
use fuse_scrollfs.Bytes.{
  Bytes, Cursor, from_le, get_u32, get_u64, put_u32, put_u64, slice, splice, to_le,
}
use fuse_scrollfs.Prelude.{
  Bool, Option, [], drop, false, if◌then◌else◌, length, ltb, none, not, replicate, some, take, true,
  ℕ, ◌&&◌, ◌-◌, ◌==◌, ◌∷◌,
}

-- `u32::from_le_bytes(*b"ZSB2")`.
abbrev pub sb_magic : ℕ
sb_magic = from_le (b'Z' ∷ b'S' ∷ b'B' ∷ b'2' ∷ [])

abbrev pub sb_crc_offset : ℕ
sb_crc_offset = sb_len - 4

pub record SuperBlock : Type 0 where
  pub seq : ℕ
  pub chunk_size : ℕ
  pub uncompressed_size : ℕ
  pub chunk_count : ℕ
  pub index_offset : ℕ
  pub index_len : ℕ
  pub index_crc : ℕ
  pub tail_journal_offset : ℕ
  pub tail_journal_len : ℕ
  pub head_cache : Option HeadCache

abbrev pub no_head_cache : HeadCache
no_head_cache = record { offset = 0; clen = 0; rawlen = 0; verbatim = false }

-- `unwrap_or`.
abbrev pub or_default : Option HeadCache → HeadCache
or_default none = no_head_cache
or_default (some hc) = hc

-- `u32::from(verbatim)`.
abbrev pub flag_of : Bool → ℕ
flag_of true = 1
flag_of false = 0

-- The fields in the order of their `put_` calls, over the zeroed buffer.
unfoldable pub put_fields : SuperBlock → Cursor
unfolding put_u32 put_u64
put_fields sb =
    let hc = or_default sb.head_cache in
    let c0 : Cursor = record { buf = replicate sb_len 0; p = 0 } in
    let c1 = put_u32 c0 sb_magic in
    let c2 = put_u64 c1 sb.seq in
    let c3 = put_u32 c2 sb.chunk_size in
    let c4 = put_u64 c3 sb.uncompressed_size in
    let c5 = put_u64 c4 sb.chunk_count in
    let c6 = put_u64 c5 sb.index_offset in
    let c7 = put_u64 c6 sb.index_len in
    let c8 = put_u32 c7 sb.index_crc in
    let c9 = put_u64 c8 sb.tail_journal_offset in
    let c10 = put_u64 c9 sb.tail_journal_len in
    let c11 = put_u64 c10 hc.offset in
    let c12 = put_u64 c11 hc.clen in
    let c13 = put_u64 c12 hc.rawlen in put_u32 c13 (flag_of hc.verbatim)

-- Three zero fields stand for no head cache.
abbrev pub head_of : ℕ → ℕ → ℕ → ℕ → Option HeadCache
head_of offset clen rawlen flags =
    if offset == 0 && (clen == 0 && rawlen == 0)
    then none
    else some (record {
      offset = offset;
      clen = clen;
      rawlen = rawlen;
      verbatim = not (bit_and flags 1 == 0);
    })

-- The fields of a slot whose magic and checksum have passed.
unfoldable pub get_fields : Bytes → SuperBlock
unfolding get_u32 get_u64
get_fields buf =
    let (seq, p1) = get_u64 buf 4 in
    let (chunk_size, p2) = get_u32 buf p1 in
    let (uncompressed_size, p3) = get_u64 buf p2 in
    let (chunk_count, p4) = get_u64 buf p3 in
    let (index_offset, p5) = get_u64 buf p4 in
    let (index_len, p6) = get_u64 buf p5 in
    let (index_crc, p7) = get_u32 buf p6 in
    let (tail_journal_offset, p8) = get_u64 buf p7 in
    let (tail_journal_len, p9) = get_u64 buf p8 in
    let (hc_offset, p10) = get_u64 buf p9 in
    let (hc_clen, p11) = get_u64 buf p10 in
    let (hc_rawlen, p12) = get_u64 buf p11 in
    let (hc_flags, p13) = get_u32 buf p12 in
    record {
      seq = seq;
      chunk_size = chunk_size;
      uncompressed_size = uncompressed_size;
      chunk_count = chunk_count;
      index_offset = index_offset;
      index_len = index_len;
      index_crc = index_crc;
      tail_journal_offset = tail_journal_offset;
      tail_journal_len = tail_journal_len;
      head_cache = head_of hc_offset hc_clen hc_rawlen hc_flags;
    }

module _ (crc32 : Bytes → ℕ) where
  -- The checksum covers the fields and the zero padding.
  unfoldable pub serialize_superblock : SuperBlock → Bytes
  unfolding put_fields
  serialize_superblock sb =
      let buf = (put_fields sb).buf in
      splice buf sb_crc_offset (to_le 4 (crc32 (take sb_crc_offset buf)))

  unfoldable pub parse_superblock : Bytes → Option SuperBlock
  unfolding get_fields
  parse_superblock all =
      if ltb (length all) sb_len
      then none
      else (let buf = take sb_len all in
          if not (from_le (slice 0 4 buf) == sb_magic)
          then none
          else if not (crc32 (take sb_crc_offset buf) == from_le (drop sb_crc_offset buf))
          then none
          else some (get_fields buf))

-- The newer of two parsed slots; slot A on a tie.
unfoldable pub pick_active : Option SuperBlock → Option SuperBlock → Option SuperBlock
pick_active (some x) (some y) = some (if ltb x.seq y.seq then y else x)
pick_active (some x) none = some x
pick_active none other = other
