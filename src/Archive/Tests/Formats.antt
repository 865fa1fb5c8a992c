-- ===== src/Archive/Tests/Formats.antt =====
-- The formats of a small archive.
use fuse_scrollfs.Archive.{ChunkEntry, data_start}
use fuse_scrollfs.Archive.Index.{parse-serialize_index, parse_index, serialize_index}
use fuse_scrollfs.Archive.Journal.{replay_journal, serialize_journal_record}
use fuse_scrollfs.Archive.Journal.Records.{Records, concat, first_payload, records_len}
use fuse_scrollfs.Archive.Journal.Replay.{replay_journal_exact}
use fuse_scrollfs.Archive.Journal.RoundTrip.{replay-serialize, serialize_records}
use fuse_scrollfs.Archive.Reader.{load_active}
use fuse_scrollfs.Archive.Recovery.Opens.{load_active-Holds}
use fuse_scrollfs.Archive.Superblock.{SuperBlock, parse_superblock, serialize_superblock}
use fuse_scrollfs.Archive.Superblock.RoundTrip.{parse-serialize_superblock}
use fuse_scrollfs.Archive.Tests.{empty_archive, empty_sb, image, image-Holds, sum32, sum32-IsCrc32}
use fuse_scrollfs.BlockIo.FaultIo.{fault_block_io, from_bytes}
use fuse_scrollfs.Bytes.{Bytes}
use fuse_scrollfs.Prelude.{
  List, [], arith, drop, length, none, refl, some, true, ◌++◌, ◌∷◌, ◌≡◌, ◌≤◌,
}
use fuse_scrollfs.Prelude.Result.{ok}

load_active-Holds_example : load_active sum32 (from_bytes image) (length image) ≡ ok empty_archive
load_active-Holds_example = load_active-Holds sum32 image data_start empty_archive image-Holds

abbrev cached_sb : SuperBlock
cached_sb = record empty_sb {
  head_cache = some (record { offset = data_start; clen = 9; rawlen = 20; verbatim = true });
}

parse-serialize_superblock_example :
    parse_superblock sum32 (serialize_superblock sum32 cached_sb ++ 1 ∷ []) ≡ some cached_sb
parse-serialize_superblock_example =
    parse-serialize_superblock sum32 cached_sb (1 ∷ []) sum32-IsCrc32 (record {
      seq = omega arith;
      chunk_size = omega arith;
      uncompressed_size = omega arith;
      chunk_count = omega arith;
      index_offset = omega arith;
      index_len = omega arith;
      index_crc = omega arith;
      tail_journal_offset = omega arith;
      tail_journal_len = omega arith;
      head_cache = (omega arith, omega arith, omega arith, omega arith);
    })

abbrev two_entries : List ChunkEntry
two_entries =
    record { offset = 268; clen = 4; flags = 1; block_crc = 9 }
    ∷ record { offset = 272; clen = 3; flags = 0; block_crc = 700 }
    ∷ []

parse-serialize_index_example :
    parse_index (serialize_index two_entries) (length two_entries) ≡ two_entries
parse-serialize_index_example = parse-serialize_index two_entries (
  (omega arith, omega arith, omega arith, omega arith),
  ((omega arith, omega arith, omega arith, omega arith), tt),
)

-- Two records and the first three bytes of a third.
abbrev two_payloads : List Bytes
two_payloads = (1 ∷ 2 ∷ []) ∷ (3 ∷ []) ∷ []

abbrev torn : Bytes
torn = 4 ∷ 0 ∷ 0 ∷ []

torn_no_payload : first_payload sum32 torn ≡ none
unfolding first_payload
torn_no_payload = refl

replay-serialize_example :
    replay_journal sum32 (serialize_records sum32 two_payloads ++ torn) ≡ record {
      plain = concat two_payloads;
      consumed = length (serialize_records sum32 two_payloads);
    }
unfolding serialize_journal_record
replay-serialize_example =
    replay-serialize sum32 two_payloads torn sum32-IsCrc32 (omega arith, (omega arith, tt))
      torn_no_payload (omega arith)

abbrev journal_bytes : Bytes
journal_bytes = 1 ∷ 0 ∷ 0 ∷ 0 ∷ 7 ∷ 0 ∷ 0 ∷ 0 ∷ 7 ∷ 9 ∷ []

replay_journal_exact_example :
    (payloads : List Bytes) × (replay_journal sum32 journal_bytes
      ≡ record { plain = concat payloads; consumed = records_len payloads })
    × Records sum32 journal_bytes payloads (drop (records_len payloads) journal_bytes)
    × (records_len payloads ≤ length journal_bytes)
    × (first_payload sum32 (drop (records_len payloads) journal_bytes) ≡ none)
replay_journal_exact_example = replay_journal_exact sum32 journal_bytes (omega arith)
