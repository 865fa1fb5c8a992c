-- ===== src/Archive/Journal/RoundTrip.antt =====
-- A journal that is written record by record is replayed whole, up to a torn end.
-- Every payload's length fits the u32 of its header.
use fuse_scrollfs.Archive.{IsCrc32}
use fuse_scrollfs.Archive.Journal.{journal_rec_header_len, replay_journal, serialize_journal_record}
use fuse_scrollfs.Archive.Journal.Records.{Records, concat, first_payload, more, records_len, stop}
use fuse_scrollfs.Archive.Journal.Replay.{replay_journal-Records}
use fuse_scrollfs.Bytes.{Bytes, from_le, from_le-to_le_4, to_le, u32_mod, u64_mod}
use fuse_scrollfs.Prelude.{
  List, [], ap, append_assoc, arith, drop, drop-append_at, length, length-append, none, refl, some,
  sym, take-append_at, ℕ, ◌%◌, ◌++◌, ◌+◌, ◌<◌, ◌∙◌, ◌∷◌, ◌≡◌,
}

abbrev pub PayloadsFit : List Bytes → Type 0
PayloadsFit [] = Unit
PayloadsFit (p ∷ ps) = (length p < u32_mod) × PayloadsFit ps

module _ (crc32 : Bytes → ℕ) where
  -- The records as `append_journal` writes them, one after another.
  abbrev pub serialize_records : List Bytes → Bytes
  serialize_records [] = []
  serialize_records (p ∷ ps) = serialize_journal_record crc32 p ++ serialize_records ps

  pub length-serialize_journal_record :
      (p : Bytes) → length (serialize_journal_record crc32 p) ≡ journal_rec_header_len + length p
  unfolding serialize_journal_record
  length-serialize_journal_record p = omega arith

  pub first_payload-serialize :
      (p rest : Bytes)
      → IsCrc32 crc32
      → length p < u32_mod
      → first_payload crc32 (serialize_journal_record crc32 p ++ rest) ≡ some p
  unfolding first_payload serialize_journal_record
  first_payload-serialize p rest u h =
      let n : from_le (to_le 4 (length p % u32_mod)) ≡ length p = omega arith in
      ground (
        arith,
        n,
        length-append p rest,
        from_le-to_le_4 (crc32 p) (u.is_u32 p),
        take-append_at (length p) p rest refl,
      )

  pub drop-serialize_journal_record :
      (p rest : Bytes)
      → drop (journal_rec_header_len + length p) (serialize_journal_record crc32 p ++ rest) ≡ rest
  drop-serialize_journal_record p rest =
      drop-append_at (journal_rec_header_len + length p) (serialize_journal_record crc32 p) rest
        (sym (length-serialize_journal_record p))

  pub Records-serialize :
      (payloads : List Bytes) (tail : Bytes)
      → IsCrc32 crc32
      → PayloadsFit payloads
      → first_payload crc32 tail ≡ none
      → Records crc32 (serialize_records payloads ++ tail) payloads tail
  Records-serialize [] tail u fit end = stop end
  Records-serialize (p ∷ ps) tail u fit end =
      let r = serialize_journal_record crc32 p in
      let rest = serialize_records ps ++ tail in
      let e : r ++ serialize_records ps ++ tail ≡ r ++ rest =
        append_assoc r (serialize_records ps) tail in
      more p (rw e (first_payload-serialize p rest u fit.0))
        (rw (e, drop-serialize_journal_record p rest) (Records-serialize ps tail u fit.1 end))

  pub length-serialize_records :
      (payloads : List Bytes) → length (serialize_records payloads) ≡ records_len payloads
  length-serialize_records [] = refl
  length-serialize_records (p ∷ ps) = omega (
    arith,
    length-append (serialize_journal_record crc32 p) (serialize_records ps),
    length-serialize_journal_record p,
    length-serialize_records ps,
  )

  -- Serialized records, each payload shorter than 2^32 bytes, followed by bytes that begin with
  -- no whole record, replay, in all below 2^64 bytes, to all payloads in order, with exactly the
  -- records consumed.
  pub replay-serialize :
      (payloads : List Bytes) (tail : Bytes)
      → IsCrc32 crc32
      → PayloadsFit payloads
      → first_payload crc32 tail ≡ none
      → length (serialize_records payloads ++ tail) < u64_mod
      → replay_journal crc32 (serialize_records payloads ++ tail)
        ≡ record { plain = concat payloads; consumed = length (serialize_records payloads) }
  replay-serialize payloads tail u fit end l =
      replay_journal-Records crc32 (serialize_records payloads ++ tail) l
        (Records-serialize payloads tail u fit end)
      ∙ ap (λ n. record { plain = concat payloads; consumed = n })
          (sym (length-serialize_records payloads))
