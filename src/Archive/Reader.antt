-- ===== src/Archive/Reader.antt =====
-- crates/scrollz/src/archive/reader.rs: opening an archive, and reading its blocks.
use fuse_scrollfs.Archive.{
  ChunkEntry, Footer, HeadCache, data_start, header_len, magic, sb_a_offset, sb_b_offset, sb_len,
  version,
}
use fuse_scrollfs.Archive.Superblock.{SuperBlock, parse_superblock}
use fuse_scrollfs.Archive.Validate.{validate_and_load_index}
use fuse_scrollfs.BlockIo.{BlockIo}
use fuse_scrollfs.Bytes.{Bytes, bytes_eq, checked_add, from_le, slice}
use fuse_scrollfs.Prelude.{
  Bool, List, Option, [], get_elem?, if◌then◌else◌, ltb, none, not, some, take, ℕ, ◌++◌, ◌==◌, ◌||◌,
  ◌∷◌,
}
use fuse_scrollfs.Prelude.Result.{Result, err, invalid_data, ok, refuse_if, ◌>>=◌, ◌>>◌}

pub record ActiveArchive : Type 0 where
  pub sb : SuperBlock
  pub off : ℕ
  pub index : List ChunkEntry
  pub tail_journal : Option Bytes

pub record ArchiveReader (W : Type 0) : Type 0 where
  pub file : W
  pub footer : Footer
  pub index : List ChunkEntry
  pub tail_journal : Option Bytes

unfoldable pub footer_from_sb : SuperBlock → Footer
footer_from_sb sb = record {
  chunk_size = sb.chunk_size;
  uncompressed_size = sb.uncompressed_size;
  chunk_count = sb.chunk_count;
  index_offset = sb.index_offset;
  crc = sb.index_crc;
  head_cache = sb.head_cache;
}

abbrev pub Candidate : Type 0
Candidate = SuperBlock × ℕ

-- `if let Some(sb) = slot { cands.push((sb, off)) }`.
abbrev pub push_candidate : List Candidate → Option SuperBlock → ℕ → List Candidate
push_candidate cands none off = cands
push_candidate cands (some sb) off = cands ++ (sb, off) ∷ []

-- A stable sort by descending `seq`.
abbrev pub insert_by_seq : Candidate → List Candidate → List Candidate
insert_by_seq c [] = c ∷ []
insert_by_seq c (d ∷ ds) = if ltb c.0.seq d.0.seq then d ∷ insert_by_seq c ds else c ∷ d ∷ ds

abbrev pub sort_by_seq : List Candidate → List Candidate
sort_by_seq [] = []
sort_by_seq (c ∷ cs) = insert_by_seq c (sort_by_seq cs)

module _ {W : Type 0} ⦃b : BlockIo W⦄ where
  -- The length, magic and version tests that `from_file` and the updater's `from_io` share.
  unfoldable pub check_header : W → Result ℕ
  check_header io = do
    total_len ← b.len io
    refuse_if (ltb total_len data_start) invalid_data
    header ← b.read_at io 0 header_len
    refuse_if (not (bytes_eq (take 8 header) magic)) invalid_data
    refuse_if (not (from_le (slice 8 4 header) == version)) invalid_data
    ok total_len

  -- A head cache is derived data: where it is out of bounds or unreadable there is none.
  unfoldable pub read_head_cache_bytes : W → Footer → HeadCache → Option Bytes
  read_head_cache_bytes io footer hc = elim (checked_add hc.offset hc.clen) [
    | none ↦ none
    | some end ↦
        if ltb hc.offset data_start || ltb footer.index_offset end
        then none
        else elim (b.read_at io hc.offset hc.clen) [ ok buf ↦ some buf | err e ↦ none ]
  ]

  unfoldable pub entry : ArchiveReader W → ℕ → Option ChunkEntry
  entry r idx = get_elem? r.index idx

module _ (crc32 : Bytes → ℕ) {W : Type 0} ⦃b : BlockIo W⦄ where
  unfoldable pub read_sb_slot : W → ℕ → Result (Option SuperBlock)
  read_sb_slot io off = b.read_at io off sb_len >>= λ buf. ok (parse_superblock crc32 buf)

  -- The first candidate that validates.
  unfoldable pub first_valid : W → ℕ → List Candidate → Result ActiveArchive
  first_valid io total_len [] = err invalid_data
  first_valid io total_len (c ∷ cs) =
      let rest = first_valid io total_len cs in
      validate_and_load_index crc32 io c.0 total_len >>= λ loaded. elim loaded [
        | some (index, tail_journal) ↦
            ok (record { sb = c.0; off = c.1; index = index; tail_journal = tail_journal })
        | none ↦ rest
      ]

  unfoldable pub load_active : W → ℕ → Result ActiveArchive
  load_active io total_len = do
    a ← read_sb_slot io sb_a_offset
    b ← read_sb_slot io sb_b_offset
    first_valid io total_len
        (sort_by_seq (push_candidate (push_candidate [] a sb_a_offset) b sb_b_offset))

  unfoldable pub from_file : W → Result (ArchiveReader W)
  unfolding check_header load_active
  from_file file = do
    total_len ← check_header file
    active ← load_active file total_len
    ok (record {
      file = file;
      footer = footer_from_sb active.sb;
      index = active.index;
      tail_journal = active.tail_journal;
    })

  -- `None` out of range; a checksum that differs is an error.
  unfoldable pub read_block : ArchiveReader W → ℕ → Result (Option (Bytes × ChunkEntry))
  unfolding entry
  read_block r idx = elim (entry r idx) [
    | none ↦ ok none
    | some e ↦ do
      buf ← b.read_at r.file e.offset e.clen
      refuse_if (not (crc32 buf == e.block_crc)) invalid_data
      ok (some (buf, e))
  ]

  unfoldable pub read_head_cache : ArchiveReader W → Option (Bytes × Bool)
  unfolding read_head_cache_bytes
  read_head_cache r = elim r.footer.head_cache [
    | none ↦ none
    | some hc ↦ elim (read_head_cache_bytes r.file r.footer hc) [
      | some bytes ↦ some (bytes, hc.verbatim)
      | none ↦ none
    ]
  ]
