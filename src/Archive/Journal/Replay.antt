-- ===== src/Archive/Journal/Replay.antt =====
-- The loop of `replay_journal` returns exactly the records that its buffer begins with.
use fuse_scrollfs.Archive.Journal.{journal_rec_header_len, replay_journal, replay_loop}
use fuse_scrollfs.Archive.Journal.Records.{Records, concat, first_payload, more, records_len, stop}
use fuse_scrollfs.Bytes.{Bytes, from_le, slice, u64_mod}
use fuse_scrollfs.Prelude.{
  List, Option-cases, [], ap, append-nil, append_assoc, arith, drop, drop-drop, inl, inr, length,
  length-drop, length-take, none, refl, some, suc, sym, take, zero, ℕ, ◌++◌, ◌+◌, ◌<◌, ◌∙◌, ◌∷◌,
  ◌≡◌, ◌≤◌,
}

module _ (crc32 : Bytes → ℕ) where
  -- One round of the loop is a look at the first record of what is left.
  replay_round :
      (fuel : ℕ) (buf plain : Bytes) (consumed : ℕ)
      → length buf < u64_mod
      → consumed ≤ length buf
      → replay_loop crc32 (suc fuel) buf plain consumed
        ≡ elim (first_payload crc32 (drop consumed buf)) [
          | none ↦ record { plain = plain; consumed = consumed }
          | some p ↦
              replay_loop crc32 fuel buf (plain ++ p) (consumed + journal_rec_header_len + length p)
        ]
  unfolding replay_loop first_payload
  replay_round fuel buf plain consumed l h =
      let s = drop consumed buf in
      let n = from_le (slice 0 4 s) in
      ground (
        arith,
        length-drop consumed buf,
        ap (take 4) (drop-drop 4 consumed buf),
        ap (take n) (drop-drop journal_rec_header_len consumed buf),
        length-take n (drop journal_rec_header_len s),
        length-drop journal_rec_header_len s,
      )

  first_payload-le :
      (s p : Bytes) → first_payload crc32 s ≡ some p → journal_rec_header_len + length p ≤ length s
  unfolding first_payload
  first_payload-le s p h = ground (
    arith,
    length-take (from_le (slice 0 4 s)) (drop journal_rec_header_len s),
    length-drop journal_rec_header_len s,
  )

  first_payload-nil : first_payload crc32 [] ≡ none
  unfolding first_payload
  first_payload-nil = refl

  replay_loop-Records :
      (fuel : ℕ) (buf plain : Bytes) (consumed : ℕ) {s rest : Bytes} {payloads : List Bytes}
      → length buf < u64_mod
      → consumed ≤ length buf
      → drop consumed buf ≡ s
      → length s ≤ fuel
      → Records crc32 s payloads rest
      → replay_loop crc32 fuel buf plain consumed
        ≡ record { plain = plain ++ concat payloads; consumed = consumed + records_len payloads }
  unfolding replay_loop
  replay_loop-Records zero buf plain consumed l c e f (stop none_left) =
      ground (arith, append-nil plain)
  replay_loop-Records zero buf plain consumed {s = s} l c e f (more p first others) =
      absurd (omega (arith, first_payload-le s p first))
  replay_loop-Records (suc fuel) buf plain consumed {s = s} l c e f (stop none_left) =
      replay_round fuel buf plain consumed l c
      ∙ rw (e, none_left) (ground (arith, append-nil plain))
  replay_loop-Records (suc fuel) buf plain consumed {s = s} l c e f
        (more {payloads = ps} p first others) =
      let n = journal_rec_header_len + length p in
      let fits = first_payload-le s p first in
      let size = length-drop consumed buf in
      let size' = ap (λ b. length b) e in
      replay_round fuel buf plain consumed l c
      ∙ rw (e, first)
          (replay_loop-Records fuel buf (plain ++ p) (consumed + journal_rec_header_len + length p)
              l (omega arith)
              (ap (λ k. drop k buf) (omega arith) ∙ sym (drop-drop n consumed buf) ∙ ap (drop n) e)
              (omega (arith, length-drop n s)) others
            ∙ ground (arith, append_assoc plain p (concat ps)))

  -- Every buffer begins with some records, after which no whole record follows.
  Records-total :
      (fuel : ℕ) (s : Bytes)
      → length s ≤ fuel
      → (payloads : List Bytes) × (rest : Bytes) × Records crc32 s payloads rest
  Records-total zero [] h = ([], [], stop first_payload-nil)
  Records-total zero (x ∷ s) h = absurd (omega arith)
  Records-total (suc fuel) s h = elim (Option-cases (first_payload crc32 s)) [
    | inl end ↦ ([], s, stop end)
    | inr (p, first) ↦
        let (ps, rest, rs) = Records-total fuel (drop (journal_rec_header_len + length p) s) (
          omega (
            arith,
            length-drop (journal_rec_header_len + length p) s,
            first_payload-le s p first,
          )) in
        (p ∷ ps, rest, more p first rs)
  ]

  pub replay_journal-Records :
      (buf : Bytes) {rest : Bytes} {payloads : List Bytes}
      → length buf < u64_mod
      → Records crc32 buf payloads rest
      → replay_journal crc32 buf
        ≡ record { plain = concat payloads; consumed = records_len payloads }
  unfolding replay_journal
  replay_journal-Records buf {payloads = ps} l r =
      replay_loop-Records (length buf) buf [] 0 l (omega arith) refl (omega arith) r ∙ ground arith

  Records-rest :
      {s rest : Bytes} {payloads : List Bytes}
      → Records crc32 s payloads rest
      → (records_len payloads ≤ length s)
        × (rest ≡ drop (records_len payloads) s)
        × (first_payload crc32 rest ≡ none)
  Records-rest (stop end) = (omega arith, refl, end)
  Records-rest {s = s} (more {payloads = ps} p first others) =
      let n = journal_rec_header_len + length p in
      let (l, e, end) = Records-rest others in
      (
        omega (arith, length-drop n s, first_payload-le s p first),
        e ∙ drop-drop (records_len ps) n s,
        end,
      )

  -- For every buffer below 2^64 bytes the replay returns the payloads of the whole, checked
  -- records that the buffer begins with, in order, and their length, and what follows is no whole
  -- record whose checksum holds.
  pub replay_journal_exact :
      (buf : Bytes)
      → length buf < u64_mod
      → (payloads : List Bytes) × (replay_journal crc32 buf
          ≡ record { plain = concat payloads; consumed = records_len payloads })
        × Records crc32 buf payloads (drop (records_len payloads) buf)
        × (records_len payloads ≤ length buf)
        × (first_payload crc32 (drop (records_len payloads) buf) ≡ none)
  replay_journal_exact buf l =
      let (ps, rest, rs) = Records-total (length buf) buf (omega arith) in
      let (fits, e, end) = Records-rest rs in
      let rs' = rw e at rs in (ps, replay_journal-Records buf l rs, rs', fits, rw e at end)
