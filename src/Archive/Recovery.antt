-- ===== src/Archive/Recovery.antt =====
-- What it takes for the bytes of a file to hold an archive: the contract between the commit of
-- updater.rs, which must leave such bytes behind whatever a crash keeps, and the open of reader.rs.
pub mod Agree
pub mod Opens
use fuse_scrollfs.Archive.{
  ChunkEntry, data_start, index_entry_len, sb_a_offset, sb_b_offset, sb_len,
}
use fuse_scrollfs.Archive.Index.{parse_index}
use fuse_scrollfs.Archive.Journal.{replay_journal}
use fuse_scrollfs.Archive.Reader.{ActiveArchive}
use fuse_scrollfs.Archive.Superblock.{SuperBlock, parse_superblock}
use fuse_scrollfs.Archive.Updater.{other_slot}
use fuse_scrollfs.Bytes.{Bytes, slice, u64_mod}
use fuse_scrollfs.Prelude.{
  List, Option, [], length, none, some, ℕ, ◌*◌, ◌+◌, ◌<◌, ◌∷◌, ◌≡◌, ◌≤◌, ◌⊎◌,
}

-- Every entry lies between `DATA_START` and `end`.
abbrev pub EntriesIn : ℕ → List ChunkEntry → Type 0
EntriesIn end [] = Unit
EntriesIn end (e ∷ index) =
    (data_start ≤ e.offset) × (e.offset + e.clen ≤ end) × EntriesIn end index

abbrev pub IsSlot : ℕ → Type 0
IsSlot off = (off ≡ sb_a_offset) ⊎ (off ≡ sb_b_offset)

-- The other slot loses against `seq` in the slot at `off`: slot A wins a tie.
abbrev pub Loses : ℕ → ℕ → Option SuperBlock → Type 0
Loses off seq none = Unit
Loses off seq (some sb) = (sb.seq < seq) ⊎ ((sb.seq ≡ seq) × (off ≡ sb_a_offset))

module _ (crc32 : Bytes → ℕ) where
  -- The committed journal is whole and ends below `reach`, or there is none.
  abbrev pub JournalIn : Bytes → ℕ → SuperBlock → Option Bytes → Type 0
  JournalIn img reach sb none = sb.tail_journal_len ≡ 0
  JournalIn img reach sb (some plain) =
      (0 < sb.tail_journal_len)
      × (data_start ≤ sb.tail_journal_offset)
      × (sb.tail_journal_offset + sb.tail_journal_len ≤ reach)
      × (replay_journal crc32 (slice sb.tail_journal_offset sb.tail_journal_len img)
          ≡ record { plain = plain; consumed = sb.tail_journal_len })

  -- All that the superblock refers to is in the first `reach` bytes.
  pub record Usable (img : Bytes) (reach : ℕ) (sb : SuperBlock) (index : List ChunkEntry)
      (tail : Option Bytes) : Type 0 where
    pub chunk_size : 0 < sb.chunk_size
    pub count : sb.chunk_count * index_entry_len < u64_mod
    pub index_len : sb.index_len ≡ sb.chunk_count * index_entry_len
    pub index_start : data_start ≤ sb.index_offset
    pub index_end : sb.index_offset + sb.index_len ≤ reach
    pub reach-lt : reach < u64_mod
    pub index_crc : crc32 (slice sb.index_offset sb.index_len img) ≡ sb.index_crc
    pub parsed : parse_index (slice sb.index_offset sb.index_len img) sb.chunk_count ≡ index
    pub entries : EntriesIn sb.index_offset index
    pub journal : JournalIn img reach sb tail

  -- The first `reach` bytes of `img` hold the archive.
  pub record Holds (img : Bytes) (reach : ℕ) (a : ActiveArchive) : Type 0 where
    pub start : data_start ≤ reach
    pub reach-le : reach ≤ length img
    pub is_slot : IsSlot a.off
    pub slot : parse_superblock crc32 (slice a.off sb_len img) ≡ some a.sb
    pub loser : Loses a.off a.sb.seq (parse_superblock crc32 (slice (other_slot a.off) sb_len img))
    pub usable : Usable img reach a.sb a.index a.tail_journal
