-- ===== src/Archive/Writer/RoundTrip.antt =====
-- Blocks written by crates/scrollz/src/archive/writer.rs are opened by reader.rs.
use fuse_scrollfs.Archive.{IsCrc32, data_start, index_entry_len, sb_a_offset}
use fuse_scrollfs.Archive.Crash.Slot.{archive_at}
use fuse_scrollfs.Archive.Crash.Staging.{cached_at, cached_len}
use fuse_scrollfs.Archive.Index.{length-serialize_index}
use fuse_scrollfs.Archive.Reader.{ActiveArchive, load_active}
use fuse_scrollfs.Archive.Superblock.RoundTrip.{HeadFits}
use fuse_scrollfs.Archive.Writer.{
  ArchiveWriter, Sink, append_block, finish, finish_index, first_superblock, new_writer, write_head,
  writer_head_cache,
}
use fuse_scrollfs.Archive.Writer.Appends.{append_blocks-Wrote, entry_at}
use fuse_scrollfs.Archive.Writer.Finished.{finish_index-opens, start_bytes, write_head-Wrote}
use fuse_scrollfs.Archive.Writer.Layout.{Block, Stored, Wrote, append_blocks, block_lens, raw_lens}
use fuse_scrollfs.BlockIo.FaultIo.{fault_block_io, from_bytes}
use fuse_scrollfs.Bytes.{Bytes, u32_mod, u64_mod}
use fuse_scrollfs.Prelude.{
  Bool, Bool-cases, List, Option, [], ap, ap₂, arith, inl, inr, length, length-append, none, refl,
  some, sym, ℕ, ◌*◌, ◌+◌, ◌<◌, ◌==◌, ◌∙◌, ◌∷◌, ◌≡◌, ◌≤◌,
}
use fuse_scrollfs.Prelude.Result.{ok}
use mathlib.Core.Path.{subst}

abbrev pub empty_sink : Sink
empty_sink = record { out = []; pos = 0 }

-- The calls before `finish`.
abbrev pub written :
    (Bytes → ℕ) → List Block → Option (Bytes × Bool × ℕ) → ArchiveWriter → ArchiveWriter
written crc32 blocks none w = append_blocks crc32 blocks w
written crc32 blocks (some (bytes, verbatim, raw_len)) w =
    writer_head_cache bytes verbatim raw_len (append_blocks crc32 blocks w)

module _ (crc32 : Bytes → ℕ) where
  record Fields (v w : ArchiveWriter) (blocks : List Block) : Type 0 where
    pub chunk_size : v.chunk_size ≡ w.chunk_size
    pub size : v.uncompressed_size ≡ w.uncompressed_size + raw_lens crc32 blocks
    pub cursor : v.cursor ≡ w.cursor + block_lens crc32 blocks
    pub count : length v.index ≡ length w.index + length blocks
    pub head : v.head_cache ≡ w.head_cache

  append_blocks-Fields :
      (blocks : List Block) (w : ArchiveWriter) → Fields (append_blocks crc32 blocks w) w blocks
  unfolding append_blocks append_block
  append_blocks-Fields [] w = record {
    chunk_size = refl;
    size = omega arith;
    cursor = omega arith;
    count = omega arith;
    head = refl;
  }
  append_blocks-Fields ((bytes, verbatim, raw_len) ∷ blocks) w =
      let w' = append_block crc32 bytes verbatim raw_len w in
      let r = append_blocks-Fields blocks w' in
      record {
        chunk_size = r.chunk_size;
        size = omega (arith, r.size);
        cursor = omega (arith, r.cursor);
        count =
            omega
              (arith, r.count, length-append w.index (entry_at crc32 w.cursor bytes verbatim ∷ []));
        head = r.head;
      }

  record IsNew (chunk_size : ℕ) (w : ArchiveWriter) : Type 0 where
    pub chunk : w.chunk_size ≡ chunk_size
    pub size : w.uncompressed_size ≡ 0
    pub cursor : w.cursor ≡ data_start
    pub index : w.index ≡ []
    pub head : w.head_cache ≡ none
    pub wrote : Wrote crc32 start_bytes w []

  new_writer-IsNew :
      (chunk_size : ℕ) (w : ArchiveWriter)
      → new_writer chunk_size empty_sink ≡ ok w
      → (0 < chunk_size) × IsNew chunk_size w
  unfolding new_writer
  new_writer-IsNew chunk_size w e = elim (Bool-cases (chunk_size == 0)) [
    | inl h ↦ let q = rw h at e in absurd cc
    | inr h ↦
        let first : ArchiveWriter = record {
          inner = record { out = start_bytes; pos = data_start };
          chunk_size = chunk_size;
          uncompressed_size = 0;
          cursor = data_start;
          index = [];
          head_cache = none;
        } in
        let q : ok first ≡ ok w = rw h at e in
        let r : first ≡ w = cc in
        (
          ground (arith, h),
          subst (IsNew chunk_size) r (record {
            chunk = refl;
            size = refl;
            cursor = refl;
            index = refl;
            head = refl;
            wrote = record {
              body = [];
              out = refl;
              at_end = refl;
              cursor = refl;
              entries = tt;
              fit = λ _. tt;
              stored = tt;
            };
          }),
        )
  ]

  -- The archive that opens, and the blocks in it.
  abbrev pub OpensWith : Bytes → ActiveArchive → List Block → Type 0
  OpensWith img a blocks =
      (load_active crc32 (from_bytes img) (length img) ≡ ok a) × Stored crc32 img a.index blocks

  abbrev pub archive_of : ArchiveWriter → ActiveArchive
  archive_of w =
      let (v, head) = write_head w.head_cache w in
      archive_at sb_a_offset (first_superblock crc32 v head) v.index none

  module _ (u32 : IsCrc32 crc32) (w : ArchiveWriter) (blocks : List Block)
      (h : Wrote crc32 start_bytes w blocks) where
    head-OpensWith :
        (o : Option (Bytes × Bool × ℕ))
        → 0 < w.chunk_size
        → w.chunk_size < u32_mod
        → w.uncompressed_size < u64_mod
        → w.cursor + cached_len o + index_entry_len * length w.index < u64_mod
        → HeadFits (cached_at w.cursor o)
        → OpensWith
            (finish_index crc32 (write_head o w).0 (write_head o w).1)
            (archive_at sb_a_offset
              (first_superblock crc32 (write_head o w).0 (write_head o w).1)
              (write_head o w).0.index
              none)
            blocks
    head-OpensWith none c d size room fits =
        finish_index-opens crc32 u32 w blocks none h c d size
          (omega (arith, room, length-serialize_index w.index)) fits
    head-OpensWith (some (bytes, verbatim, raw_len)) c d size room fits =
        let o : Option (Bytes × Bool × ℕ) = some (bytes, verbatim, raw_len) in
        finish_index-opens crc32 u32 (write_head o w).0 blocks (write_head o w).1
          (write_head-Wrote crc32 o w blocks h) c d size
          (omega (arith, room, length-serialize_index w.index)) fits

    ready-OpensWith :
        0 < w.chunk_size
        → w.chunk_size < u32_mod
        → w.uncompressed_size < u64_mod
        → w.cursor + cached_len w.head_cache + index_entry_len * length w.index < u64_mod
        → HeadFits (cached_at w.cursor w.head_cache)
        → OpensWith (finish crc32 w) (archive_of w) blocks
    unfolding finish
    ready-OpensWith c d size room fits = head-OpensWith w.head_cache c d size room fits

  record Ready (w : ArchiveWriter) (v : ArchiveWriter) (blocks : List Block)
      (o : Option (Bytes × Bool × ℕ)) : Type 0 where
    pub chunk_size : v.chunk_size ≡ w.chunk_size
    pub size : v.uncompressed_size ≡ w.uncompressed_size + raw_lens crc32 blocks
    pub cursor : v.cursor ≡ w.cursor + block_lens crc32 blocks
    pub count : length v.index ≡ length w.index + length blocks
    pub head : v.head_cache ≡ o
    pub wrote : Wrote crc32 start_bytes v blocks

  -- What the calls before `finish` leave.
  written-Ready :
      (u32 : IsCrc32 crc32) (blocks : List Block) (o : Option (Bytes × Bool × ℕ))
      (w : ArchiveWriter)
      → w.head_cache ≡ none
      → data_start ≤ w.cursor
      → Wrote crc32 start_bytes w []
      → Ready w (written crc32 blocks o w) blocks o
  unfolding writer_head_cache
  written-Ready u32 blocks none w n l h =
      let f = append_blocks-Fields blocks w in
      record {
        chunk_size = f.chunk_size;
        size = f.size;
        cursor = f.cursor;
        count = f.count;
        head = f.head ∙ n;
        wrote = append_blocks-Wrote crc32 u32 start_bytes blocks w [] l h;
      }
  written-Ready u32 blocks (some (bytes, verbatim, raw_len)) w n l h =
      let f = append_blocks-Fields blocks w in
      let g = append_blocks-Wrote crc32 u32 start_bytes blocks w [] l h in
      record {
        chunk_size = f.chunk_size;
        size = f.size;
        cursor = f.cursor;
        count = f.count;
        head = refl;
        wrote = record {
          body = g.body;
          out = g.out;
          at_end = g.at_end;
          cursor = g.cursor;
          entries = g.entries;
          fit = g.fit;
          stored = g.stored;
        };
      }

  -- A new archive with a chunk size below 2^32, to which blocks of total raw length below 2^64
  -- are appended and a head cache may be set, and whose numbers fit their widths, opens after
  -- finish: load_active finds the superblock that finish wrote, the index and no journal, and the
  -- entries of the index name, in order, the bytes, the flag and the checksum of every block.
  pub finish-OpensWith :
      (u32 : IsCrc32 crc32) (chunk_size : ℕ) (blocks : List Block) (o : Option (Bytes × Bool × ℕ))
      (w : ArchiveWriter)
      → new_writer chunk_size empty_sink ≡ ok w
      → chunk_size < u32_mod
      → raw_lens crc32 blocks < u64_mod
      → data_start + block_lens crc32 blocks + cached_len o + index_entry_len * length blocks
        < u64_mod
      → HeadFits (cached_at (data_start + block_lens crc32 blocks) o)
      → OpensWith
          (finish crc32 (written crc32 blocks o w))
          (archive_of (written crc32 blocks o w))
          blocks
  finish-OpensWith u32 chunk_size blocks o w e d size room fits =
      let (c, first) = new_writer-IsNew chunk_size w e in
      let v = written crc32 blocks o w in
      let r = written-Ready u32 blocks o w first.head (omega (arith, first.cursor)) first.wrote in
      let at : v.cursor ≡ data_start + block_lens crc32 blocks =
        omega (arith, r.cursor, first.cursor) in
      let n : length v.index ≡ length blocks =
        omega (arith, r.count, ap (λ x. length x) first.index) in
      ready-OpensWith u32 v blocks r.wrote (omega (arith, c, r.chunk_size, first.chunk))
        (omega (arith, d, r.chunk_size, first.chunk)) (omega (arith, size, r.size, first.size))
        (omega (arith, room, at, n, ap cached_len r.head))
        (subst HeadFits (sym (ap₂ cached_at at r.head)) fits)
