-- ===== src/Archive/Journal.antt =====
-- crates/scrollz/src/archive/journal.rs: the tail journal, records of raw bytes that have not been
-- sealed in a block. A record is its length, the checksum of its payload, and the payload.
pub mod Records
pub mod Replay
pub mod RoundTrip
use fuse_scrollfs.Archive.{data_start}
use fuse_scrollfs.Bytes.{Bytes, checked_add, from_le, slice, to_le, u32_mod}
use fuse_scrollfs.Prelude.{
  [], if◌then◌else◌, leb, length, ltb, none, not, some, suc, zero, ℕ, ◌%◌, ◌++◌, ◌+◌, ◌-◌, ◌==◌,
}

abbrev pub journal_rec_header_len : ℕ
journal_rec_header_len = 8

pub record JournalReplay : Type 0 where
  pub plain : Bytes
  pub consumed : ℕ

module _ (crc32 : Bytes → ℕ) where
  -- `raw.len() as u32` keeps the low 32 bits.
  unfoldable pub serialize_journal_record : Bytes → Bytes
  serialize_journal_record raw = to_le 4 (length raw % u32_mod) ++ to_le 4 (crc32 raw) ++ raw

  -- The `while` loop, with fuel for its rounds.
  unfoldable pub replay_loop : ℕ → Bytes → Bytes → ℕ → JournalReplay
  replay_loop zero buf plain consumed = record { plain = plain; consumed = consumed }
  replay_loop (suc fuel) buf plain consumed =
      let stop : JournalReplay = record { plain = plain; consumed = consumed } in
      let rec_len = from_le (slice consumed 4 buf) in
      let rec_crc = from_le (slice (consumed + 4) 4 buf) in
      let data_start = consumed + journal_rec_header_len in
      if not (leb (consumed + journal_rec_header_len) (length buf))
      then stop
      else elim (checked_add data_start rec_len) [
        | none ↦ stop
        | some data_end ↦
            let payload = slice data_start (data_end - data_start) buf in
            let rest = replay_loop fuel buf (plain ++ payload) data_end in
            if ltb (length buf) data_end
            then stop
            else if not (crc32 payload == rec_crc)
            then stop
            else rest
      ]

  -- A round consumes at least a header, so the buffer's length is fuel enough.
  unfoldable pub replay_journal : Bytes → JournalReplay
  unfolding replay_loop
  replay_journal buf = replay_loop (length buf) buf [] 0
