-- ===== src/Archive/Journal/Records.antt =====
-- A description of the journal apart from the loop: the records that a buffer begins with.
use fuse_scrollfs.Archive.Journal.{journal_rec_header_len}
use fuse_scrollfs.Bytes.{Bytes, from_le, slice}
use fuse_scrollfs.Prelude.{
  List, Option, [], drop, if◌then◌else◌, length, ltb, none, some, ℕ, ◌++◌, ◌+◌, ◌==◌, ◌∷◌, ◌≡◌,
}

module _ (crc32 : Bytes → ℕ) where
  -- The payload of the first record, if it is whole and its checksum holds.
  unfoldable pub first_payload : Bytes → Option Bytes
  first_payload s =
      if ltb (length s) journal_rec_header_len
      then none
      else if ltb (length s) (journal_rec_header_len + from_le (slice 0 4 s))
      then none
      else if crc32 (slice journal_rec_header_len (from_le (slice 0 4 s)) s)
          == from_le (slice 4 4 s)
      then some (slice journal_rec_header_len (from_le (slice 0 4 s)) s)
      else none

  -- Reads `n` records at most; `Records` says that the buffer begins with these payloads.
  pub data Records : Bytes → List Bytes → Bytes → Type 0 where
    stop : {s : Bytes} → first_payload s ≡ none → Records s [] s
    more :
        {s rest : Bytes} {payloads : List Bytes} (payload : Bytes)
        → first_payload s ≡ some payload
        → Records (drop (journal_rec_header_len + length payload) s) payloads rest
        → Records s (payload ∷ payloads) rest

-- The payloads one after another.
abbrev pub concat : List Bytes → Bytes
concat [] = []
concat (p ∷ ps) = p ++ concat ps

-- The bytes that the records of these payloads take.
abbrev pub records_len : List Bytes → ℕ
records_len [] = 0
records_len (p ∷ ps) = journal_rec_header_len + length p + records_len ps
