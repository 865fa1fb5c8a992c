-- ===== src/Archive/Superblock/RoundTrip.antt =====
-- A superblock that is written reads back as it was.
use fuse_scrollfs.Archive.{HeadCache, IsCrc32, sb_len}
use fuse_scrollfs.Archive.Superblock.{
  SuperBlock, flag_of, get_fields, head_of, or_default, parse_superblock, put_fields, sb_crc_offset,
  sb_magic, serialize_superblock,
}
use fuse_scrollfs.Bytes.{
  Bytes, from_le, from_le-to_le_4, from_le-to_le_8, slice, to_le, u32_mod, u64_mod,
}
use fuse_scrollfs.Prelude.{
  ==_refl, Bool, Option, ap, arith, drop, false, length, length-append, ltb-false, none, refl, some,
  sym, take, take-append_at, true, ℕ, ◌++◌, ◌+◌, ◌<◌, ◌∙◌, ◌≡◌, ◌≤◌,
}

-- Every field fits its width, and a head cache is not the all-zero one that stands for none.
abbrev pub HeadFits : Option HeadCache → Type 0
HeadFits none = Unit
HeadFits (some hc) =
    (hc.offset < u64_mod)
    × (hc.clen < u64_mod)
    × (hc.rawlen < u64_mod)
    × (0 < hc.offset + hc.clen + hc.rawlen)

pub record FitsWidths (sb : SuperBlock) : Type 0 where
  pub seq : sb.seq < u64_mod
  pub chunk_size : sb.chunk_size < u32_mod
  pub uncompressed_size : sb.uncompressed_size < u64_mod
  pub chunk_count : sb.chunk_count < u64_mod
  pub index_offset : sb.index_offset < u64_mod
  pub index_len : sb.index_len < u64_mod
  pub index_crc : sb.index_crc < u32_mod
  pub tail_journal_offset : sb.tail_journal_offset < u64_mod
  pub tail_journal_len : sb.tail_journal_len < u64_mod
  pub head_cache : HeadFits sb.head_cache

flag_of-lt : (v : Bool) → flag_of v < u32_mod
flag_of-lt true = omega arith
flag_of-lt false = omega arith

head_of-fields :
    (o c r : ℕ) (v : Bool)
    → 0 < o + c + r
    → head_of o c r (flag_of v) ≡ some (record { offset = o; clen = c; rawlen = r; verbatim = v })
head_of-fields o c r true h = ground arith
head_of-fields o c r false h = ground arith

get-put_head :
    (sb : SuperBlock)
    → HeadFits sb.head_cache
    → (get_fields (put_fields sb).buf).head_cache ≡ sb.head_cache
unfolding put_fields get_fields
get-put_head sb h = go sb.head_cache h
  where
    go :
        (hc : Option HeadCache)
        → HeadFits hc
        → head_of
            (from_le (to_le 8 (or_default hc).offset))
            (from_le (to_le 8 (or_default hc).clen))
            (from_le (to_le 8 (or_default hc).rawlen))
            (from_le (to_le 4 (flag_of (or_default hc).verbatim)))
          ≡ hc
    go none h = refl
    go (some hc) h =
        (λ i.
          head_of (from_le-to_le_8 hc.offset h.0 i) (from_le-to_le_8 hc.clen h.1 i)
            (from_le-to_le_8 hc.rawlen h.2 i)
            (from_le-to_le_4 (flag_of hc.verbatim) (flag_of-lt hc.verbatim) i))
        ∙ head_of-fields hc.offset hc.clen hc.rawlen hc.verbatim h.3

-- What the fields are after a write and a read.
get-put_fields : (sb : SuperBlock) → FitsWidths sb → get_fields (put_fields sb).buf ≡ sb
unfolding put_fields get_fields
get-put_fields sb h = λ i. record {
  seq = from_le-to_le_8 sb.seq h.seq i;
  chunk_size = from_le-to_le_4 sb.chunk_size h.chunk_size i;
  uncompressed_size = from_le-to_le_8 sb.uncompressed_size h.uncompressed_size i;
  chunk_count = from_le-to_le_8 sb.chunk_count h.chunk_count i;
  index_offset = from_le-to_le_8 sb.index_offset h.index_offset i;
  index_len = from_le-to_le_8 sb.index_len h.index_len i;
  index_crc = from_le-to_le_4 sb.index_crc h.index_crc i;
  tail_journal_offset = from_le-to_le_8 sb.tail_journal_offset h.tail_journal_offset i;
  tail_journal_len = from_le-to_le_8 sb.tail_journal_len h.tail_journal_len i;
  head_cache = get-put_head sb h.head_cache i;
}

module _ (crc32 : Bytes → ℕ) where
  pub length-serialize_superblock :
      (sb : SuperBlock) → length (serialize_superblock crc32 sb) ≡ sb_len
  unfolding serialize_superblock
  length-serialize_superblock sb = refl

  -- The tests of the parser, for a buffer whose slot is given.
  parse_superblock_accepts :
      (all buf : Bytes)
      → sb_len ≤ length all
      → take sb_len all ≡ buf
      → from_le (slice 0 4 buf) ≡ sb_magic
      → crc32 (take sb_crc_offset buf) ≡ from_le (drop sb_crc_offset buf)
      → parse_superblock crc32 all ≡ some (get_fields buf)
  unfolding parse_superblock
  parse_superblock_accepts all buf l t m c =
      rw (ltb-false (length all) sb_len l, t, m, c, ==_refl (from_le (drop sb_crc_offset buf)))

  -- The checksum that was stored.
  stored_crc :
      (sb : SuperBlock)
      → IsCrc32 crc32
      → crc32 (take sb_crc_offset (serialize_superblock crc32 sb))
        ≡ from_le (drop sb_crc_offset (serialize_superblock crc32 sb))
  unfolding serialize_superblock
  stored_crc sb u = sym (from_le-to_le_4 _ (u.is_u32 _))

  fields_of_serialized :
      (sb : SuperBlock)
      → get_fields (serialize_superblock crc32 sb) ≡ get_fields (put_fields sb).buf
  unfolding serialize_superblock get_fields put_fields
  fields_of_serialized sb = refl

  -- A superblock whose fields fit their widths, and whose head cache if any is not all zero,
  -- parses back to itself after it is serialized, whatever bytes follow.
  pub parse-serialize_superblock :
      (sb : SuperBlock) (rest : Bytes)
      → IsCrc32 crc32
      → FitsWidths sb
      → parse_superblock crc32 (serialize_superblock crc32 sb ++ rest) ≡ some sb
  parse-serialize_superblock sb rest u h =
      let s = serialize_superblock crc32 sb in
      let l = length-serialize_superblock sb in
      parse_superblock_accepts (s ++ rest) s (omega (arith, l, length-append s rest))
        (take-append_at sb_len s rest (sym l)) (unfold serialize_superblock put_fields in refl)
        (stored_crc sb u)
      ∙ ap some (fields_of_serialized sb ∙ get-put_fields sb h)
