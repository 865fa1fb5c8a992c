-- ===== src/Archive/Writer.antt =====
-- crates/scrollz/src/archive/writer.rs: a new archive, written front to back. The output is a buffer
-- with a position, as std::io::Cursor has; a write to it does not fail.
pub mod Layout
pub mod Appends
pub mod Finished
pub mod RoundTrip
use fuse_scrollfs.Archive.{
  ChunkEntry, HeadCache, data_start, magic, sb_a_offset, sb_b_offset, sb_len, version,
}
use fuse_scrollfs.Archive.Index.{serialize_index}
use fuse_scrollfs.Archive.Superblock.{SuperBlock, serialize_superblock}
use fuse_scrollfs.Archive.Updater.{verbatim_flags}
use fuse_scrollfs.Bytes.{Bytes, splice, to_le}
use fuse_scrollfs.Prelude.{
  Bool, List, Option, [], if◌then◌else◌, length, none, replicate, some, ℕ, ◌*◌, ◌++◌, ◌+◌, ◌==◌,
  ◌∷◌,
}
use fuse_scrollfs.Prelude.Result.{Result, err, invalid_input, ok}

pub record Sink : Type 0 where
  pub out : Bytes
  pub pos : ℕ

abbrev pub seek : ℕ → Sink → Sink
seek p s = record s { pos = p }

abbrev pub write_all : Bytes → Sink → Sink
write_all bytes s = record { out = splice s.out s.pos bytes; pos = s.pos + length bytes }

pub record ArchiveWriter : Type 0 where
  pub inner : Sink
  pub chunk_size : ℕ
  pub uncompressed_size : ℕ
  pub cursor : ℕ
  pub index : List ChunkEntry
  pub head_cache : Option (Bytes × Bool × ℕ)

-- The header, and zeros where the superblocks will be.
unfoldable pub new_writer : ℕ → Sink → Result ArchiveWriter
new_writer chunk_size sink =
    if chunk_size == 0
    then err invalid_input
    else ok (record {
      inner =
          write_all (replicate (2 * sb_len) 0)
            (write_all (to_le 4 version) (write_all magic (seek 0 sink)));
      chunk_size = chunk_size;
      uncompressed_size = 0;
      cursor = data_start;
      index = [];
      head_cache = none;
    })

unfoldable pub writer_head_cache : Bytes → Bool → ℕ → ArchiveWriter → ArchiveWriter
writer_head_cache stored_bytes verbatim raw_len w = record w {
  head_cache = some (stored_bytes, verbatim, raw_len);
}

-- The head cache, if there is one, stands before the index.
abbrev pub write_head : Option (Bytes × Bool × ℕ) → ArchiveWriter → ArchiveWriter × Option HeadCache
write_head none w = (w, none)
write_head (some (bytes, verbatim, raw_len)) w = (
  record w { inner = write_all bytes w.inner; cursor = w.cursor + length bytes },
  some (record { offset = w.cursor; clen = length bytes; rawlen = raw_len; verbatim = verbatim }),
)

module _ (crc32 : Bytes → ℕ) where
  unfoldable pub append_block : Bytes → Bool → ℕ → ArchiveWriter → ArchiveWriter
  append_block stored_bytes verbatim raw_len w = record w {
    inner = write_all stored_bytes w.inner;
    index =
        w.index
        ++ record {
          offset = w.cursor;
          clen = length stored_bytes;
          flags = verbatim_flags verbatim;
          block_crc = crc32 stored_bytes;
        }
          ∷ [];
    cursor = w.cursor + length stored_bytes;
    uncompressed_size = w.uncompressed_size + raw_len;
  }

  unfoldable pub write_superblock_slot : ℕ → SuperBlock → Sink → Sink
  write_superblock_slot off sb s = write_all (serialize_superblock crc32 sb) (seek off s)

  abbrev pub first_superblock : ArchiveWriter → Option HeadCache → SuperBlock
  first_superblock w head_cache = record {
    seq = 0;
    chunk_size = w.chunk_size;
    uncompressed_size = w.uncompressed_size;
    chunk_count = length w.index;
    index_offset = w.cursor;
    index_len = length (serialize_index w.index);
    index_crc = crc32 (serialize_index w.index);
    tail_journal_offset = 0;
    tail_journal_len = 0;
    head_cache = head_cache;
  }

  -- The index, and the superblock in both slots.
  abbrev pub finish_index : ArchiveWriter → Option HeadCache → Bytes
  finish_index w head_cache =
      let sb = first_superblock w head_cache in
      let s = write_superblock_slot sb_a_offset sb (write_all (serialize_index w.index) w.inner) in
      (write_superblock_slot sb_b_offset sb s).out

  unfoldable pub finish : ArchiveWriter → Bytes
  finish w0 = let (w, head_cache) = write_head w0.head_cache w0 in finish_index w head_cache
