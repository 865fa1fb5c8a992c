-- ===== src/Archive/Crash/Journal.antt =====
-- The tail journal of crates/scrollz/src/archive/updater.rs against what a crash may leave.
use fuse_scrollfs.Archive.{data_start}
use fuse_scrollfs.Archive.Crash.{Tracks}
use fuse_scrollfs.Archive.Crash.Staging.{
  Tracks-fields, Tracks-Unchanged, Tracks-Wrote, staged, staged-Wrote,
}
use fuse_scrollfs.Archive.Journal.{serialize_journal_record}
use fuse_scrollfs.Archive.Journal.RoundTrip.{serialize_records}
use fuse_scrollfs.Archive.Reader.{ActiveArchive}
use fuse_scrollfs.Archive.Updater.{
  Updater, append_bytes, append_journal, relocate_journal, start_journal,
}
use fuse_scrollfs.Archive.Updater.Steps.{append_bytes-bind}
use fuse_scrollfs.BlockIo.FaultIo.{FaultIo, apply, fault_block_io, len, read_at, view}
use fuse_scrollfs.BlockIo.FaultIo.Apply.{length-apply, slice-apply_before, slice-apply_self}
use fuse_scrollfs.BlockIo.FaultIo.Crash.{Wrote}
use fuse_scrollfs.Bytes.{Bytes, length-slice, slice}
use fuse_scrollfs.Prelude.{
  Bool-cases, List, Option, [], ap, append-nil, append_assoc, ap₂, arith, drop, drop-drop, inl, inr,
  length, none, refl, some, sym, take, take-add, ℕ, ◌++◌, ◌+◌, ◌==◌, ◌∙◌, ◌∷◌, ◌≡◌, ◌≤◌,
}
use fuse_scrollfs.Prelude.Exec.{Ensures, Exec, continue_with_assoc, ◌>>=◌}
use fuse_scrollfs.Prelude.Result.{ok}
use mathlib.Core.Path.{subst}

module _ (crc32 : Bytes → ℕ) where
  -- The bytes before `cursor` hold these records at the place of the journal.
  abbrev pub JournalAt : Option ℕ → ℕ → Bytes → ℕ → List Bytes → Type 0
  JournalAt none len img cursor payloads = (len ≡ 0) × (payloads ≡ [])
  JournalAt (some joff) len img cursor payloads =
      (data_start ≤ joff)
      × (joff + len ≤ cursor)
      × (slice joff len img ≡ serialize_records crc32 payloads)

  -- The updater's journal, committed or not, holds these payloads.
  pub record Journaled (u : Updater FaultIo) (payloads : List Bytes) : Type 0 where
    pub start : data_start ≤ u.write_cursor
    pub cursor_staged : u.write_cursor ≤ length (staged u)
    pub journal : JournalAt u.journal_offset u.journal_len (staged u) u.write_cursor payloads

  -- It may grow in place.
  abbrev pub EndsAt : Option ℕ → ℕ → ℕ → Type 0
  EndsAt none len cursor = Unit
  EndsAt (some joff) len cursor = joff + len ≡ cursor

  serialize_records-snoc :
      (ps : List Bytes) (p : Bytes)
      → serialize_records crc32 (ps ++ p ∷ [])
        ≡ serialize_records crc32 ps ++ serialize_journal_record crc32 p
  serialize_records-snoc [] p = append-nil (serialize_journal_record crc32 p)
  serialize_records-snoc (q ∷ ps) p =
      ap (λ r. serialize_journal_record crc32 q ++ r) (serialize_records-snoc ps p)
      ∙ sym (
          append_assoc (serialize_journal_record crc32 q) (serialize_records crc32 ps)
            (serialize_journal_record crc32 p))

  -- A record that is written at the end of the region extends the region's records.
  slice-apply_snoc :
      (img : Bytes) (joff len cursor : ℕ) (ps : List Bytes) (p : Bytes)
      → joff + len ≡ cursor
      → cursor ≤ length img
      → slice joff len img ≡ serialize_records crc32 ps
      → slice joff
          (len + length (serialize_journal_record crc32 p))
          (apply img cursor (serialize_journal_record crc32 p))
        ≡ serialize_records crc32 (ps ++ p ∷ [])
  slice-apply_snoc img joff len cursor ps p e l s =
      let r = serialize_journal_record crc32 p in
      take-add len (length r) (drop joff (apply img cursor r))
      ∙ ap (λ t. t ++ take (length r) (drop len (drop joff (apply img cursor r))))
          (slice-apply_before img cursor r joff len (omega (arith, e)) (omega (arith, e, l)))
      ∙ ap (λ t. slice joff len img ++ take (length r) t) (drop-drop len joff (apply img cursor r))
      ∙ ap (λ k. slice joff len img ++ slice k (length r) (apply img cursor r)) (omega (arith, e))
      ∙ ap (λ t. slice joff len img ++ t) (slice-apply_self img cursor r)
      ∙ ap (λ t. t ++ r) s
      ∙ sym (serialize_records-snoc ps p)

  read_staged :
      (u : Updater FaultIo) (off n : ℕ)
      → off + n ≤ length (staged u)
      → read_at u.io off n ≡ ok (slice off n (staged u))
  unfolding read_at view
  read_staged u off n h = ground arith

  -- The journal that was copied to the end of the file.
  relocated :
      (u : Updater FaultIo) (ps : List Bytes) (joff : ℕ) (io : FaultIo)
      → Journaled u ps
      → u.journal_offset ≡ some joff
      → Wrote u.io u.write_cursor (slice joff u.journal_len (staged u)) io
      → let n = length (slice joff u.journal_len (staged u)) in
        Journaled
          (record u {
            io = io;
            write_cursor = u.write_cursor + n;
            journal_offset = some u.write_cursor;
          })
          ps
        × (n ≡ u.journal_len)
  relocated u ps joff io j e w =
      let (start, fits, same) =
        subst (λ o. JournalAt o u.journal_len (staged u) u.write_cursor ps) e j.journal in
      let bytes = slice joff u.journal_len (staged u) in
      let n : length bytes ≡ u.journal_len =
        length-slice joff u.journal_len (staged u) (omega (arith, fits, j.cursor_staged)) in
      let s = staged-Wrote u u.write_cursor bytes io w in
      (
        record {
          start = omega (arith, j.start);
          cursor_staged =
              subst (λ d. u.write_cursor + length bytes ≤ length d) (sym s)
                (omega (arith, length-apply (staged u) u.write_cursor bytes));
          journal = (
            j.start,
            omega (arith, n),
            ap₂ (λ k d. slice u.write_cursor k d) (sym n) s
                ∙ slice-apply_self (staged u) u.write_cursor bytes
                ∙ same,
          );
        },
        n,
      )

  module _ {A : Type 0} (R : A → Updater FaultIo → Type 0) (E : Updater FaultIo → Type 0) where
    relocate_journal-bind :
        (u : Updater FaultIo) (reach : ℕ) (a : ActiveArchive) (ps : List Bytes) (o : Option ℕ)
        (f : Unit → Exec (Updater FaultIo) A)
        → u.journal_offset ≡ o
        → Tracks crc32 u reach a
        → Journaled u ps
        → ((v : Updater FaultIo)
            → Tracks crc32 v reach a
            → Journaled v ps
            → EndsAt v.journal_offset v.journal_len v.write_cursor
            → Ensures R E (f tt v))
        → ((v : Updater FaultIo) → Tracks crc32 v reach a → E v)
        → Ensures R E ((relocate_journal o >>= f) u)
    unfolding relocate_journal fault_block_io
    relocate_journal-bind u reach a ps none f eq t j k e = k u t j (rw eq tt)
    relocate_journal-bind u reach a ps (some joff) f eq t j k e =
        let (start, fits, same) =
          subst (λ o. JournalAt o u.journal_len (staged u) u.write_cursor ps) eq j.journal in
        let inside : joff + u.journal_len ≤ length (staged u) =
          omega (arith, fits, j.cursor_staged) in
        elim (Bool-cases (u.write_cursor == joff + u.journal_len)) [
          | inl ends ↦ rw ends (k u t j (rw eq (ground (arith, ends))))
          | inr apart ↦
              rw (apart, read_staged u joff u.journal_len inside)
                (rw (continue_with_assoc f _ (append_bytes (slice joff u.journal_len (staged u)) u))
                  (append_bytes-bind R E u (slice joff u.journal_len (staged u)) _ t.honest
                    (λ io w.
                      let bytes = slice joff u.journal_len (staged u) in
                      let (j', n) = relocated u ps joff io j eq w in
                      let v : Updater FaultIo = record u {
                        io = io;
                        write_cursor = u.write_cursor + length bytes;
                      } in
                      k (record v { journal_offset = some u.write_cursor })
                        (Tracks-fields crc32 v (record v { journal_offset = some u.write_cursor })
                          reach a refl (omega arith) refl refl
                          (Tracks-Wrote crc32 u reach a bytes io t w))
                        j' (omega (arith, n)))
                    (λ io c. e (record u { io = io }) (Tracks-Unchanged crc32 u reach a io t c))))
        ]

  -- The place of a journal that may grow: a new one begins at the end of the file.
  abbrev StartsAt : Updater FaultIo → List Bytes → ℕ → Type 0
  StartsAt u ps joff =
      (start_journal u ≡ record u { journal_offset = some joff })
      × (data_start ≤ joff)
      × (joff + u.journal_len ≡ u.write_cursor)
      × (slice joff u.journal_len (staged u) ≡ serialize_records crc32 ps)

  started :
      (u : Updater FaultIo) (ps : List Bytes) (o : Option ℕ)
      → u.journal_offset ≡ o
      → Journaled u ps
      → EndsAt o u.journal_len u.write_cursor
      → (joff : ℕ) × StartsAt u ps joff
  unfolding start_journal
  started u ps none eq j e =
      let (len, empty) =
        subst (λ o. JournalAt o u.journal_len (staged u) u.write_cursor ps) eq j.journal in
      (
        u.write_cursor,
        (
          rw eq refl,
          j.start,
          omega (arith, len),
          ap (λ k. slice u.write_cursor k (staged u)) len
              ∙ ap (serialize_records crc32) (sym empty),
        ),
      )
  started u ps (some joff) eq j e =
      let (start, fits, same) =
        subst (λ o. JournalAt o u.journal_len (staged u) u.write_cursor ps) eq j.journal in
      (joff, (rw eq refl, start, e, same))

  -- The journal with the record written behind it.
  extended :
      (u : Updater FaultIo) (ps : List Bytes) (raw : Bytes) (joff : ℕ) (io : FaultIo)
      → Journaled u ps
      → StartsAt u ps joff
      → Wrote u.io u.write_cursor (serialize_journal_record crc32 raw) io
      → let n = length (serialize_journal_record crc32 raw) in
        Journaled
          (record u {
            io = io;
            write_cursor = u.write_cursor + n;
            journal_offset = some joff;
            journal_len = u.journal_len + n;
          })
          (ps ++ raw ∷ [])
  extended u ps raw joff io j (_, start, ends, same) w =
      let r = serialize_journal_record crc32 raw in
      let s = staged-Wrote u u.write_cursor r io w in
      record {
        start = omega (arith, j.start);
        cursor_staged =
            subst (λ d. u.write_cursor + length r ≤ length d) (sym s)
              (omega (arith, length-apply (staged u) u.write_cursor r));
        journal = (
          start,
          omega (arith, ends),
          ap (slice joff (u.journal_len + length r)) s
              ∙ slice-apply_snoc (staged u) joff u.journal_len u.write_cursor ps raw ends
                  j.cursor_staged same,
        );
      }

  -- From an updater that tracks a committed archive and whose journal holds whole records, on a
  -- device whose writes may fail but are not torn: on success append_journal extends the sequence
  -- of journal records by the given payload, whether the journal grows in place or is relocated
  -- first, and in every case the committed archive stays safe.
  pub append_journal-Journaled :
      (u : Updater FaultIo) (reach : ℕ) (a : ActiveArchive) (ps : List Bytes) (raw : Bytes)
      → Tracks crc32 u reach a
      → Journaled u ps
      → Ensures
          (λ _ v. Tracks crc32 v reach a × Journaled v (ps ++ raw ∷ []))
          (λ v. Tracks crc32 v reach a)
          (append_journal crc32 raw u)
  unfolding append_journal
  append_journal-Journaled u reach a ps raw t j =
      let Q : Unit {0} → Updater FaultIo → Type 0 =
        λ _ v. Tracks crc32 v reach a × Journaled v (ps ++ raw ∷ []) in
      let E : Updater FaultIo → Type 0 = λ v. Tracks crc32 v reach a in
      relocate_journal-bind Q E u reach a ps u.journal_offset _ refl t j
        (λ v t' j' e.
          let (joff, s) = started v ps v.journal_offset refl j' e in
          rw s.0 (
            append_bytes-bind Q E (record v { journal_offset = some joff })
              (serialize_journal_record crc32 raw) _ t'.honest
              (λ io w. (
                Tracks-fields crc32
                    (record v {
                      io = io;
                      write_cursor = v.write_cursor + length (serialize_journal_record crc32 raw);
                    })
                    _ reach a refl (omega arith) refl refl
                    (Tracks-Wrote crc32 v reach a (serialize_journal_record crc32 raw) io t' w),
                extended v ps raw joff io j' s w,
              ))
              (λ io c.
                Tracks-fields crc32 (record v { io = io }) _ reach a refl (omega arith) refl refl
                  (Tracks-Unchanged crc32 v reach a io t' c))))
        (λ v t'. t')
