-- ===== src/Archive/Crash/JournalCommit.antt =====
-- `commit_journal` of crates/scrollz/src/archive/updater.rs against a crash at any of its steps.
use fuse_scrollfs.Archive.{IsCrc32, index_entry_len}
use fuse_scrollfs.Archive.Crash.{OldOrNew, Opens, Opens-Tracks, Tracks}
use fuse_scrollfs.Archive.Crash.Journal.{JournalAt, Journaled}
use fuse_scrollfs.Archive.Crash.Slot.{Committed, archive_at, write_superblock-bind}
use fuse_scrollfs.Archive.Crash.Staging.{Committed-Tracks, Ready-sync, Tracks-Unchanged, staged}
use fuse_scrollfs.Archive.Index.{parse_index}
use fuse_scrollfs.Archive.Journal.{replay_journal}
use fuse_scrollfs.Archive.Journal.Records.{concat, first_payload}
use fuse_scrollfs.Archive.Journal.RoundTrip.{PayloadsFit, replay-serialize, serialize_records}
use fuse_scrollfs.Archive.Reader.{ActiveArchive}
use fuse_scrollfs.Archive.Recovery.{EntriesIn, JournalIn, Usable}
use fuse_scrollfs.Archive.Recovery.Agree.{Usable-agree}
use fuse_scrollfs.Archive.Superblock.{SuperBlock}
use fuse_scrollfs.Archive.Superblock.RoundTrip.{FitsWidths, HeadFits}
use fuse_scrollfs.Archive.Updater.{Updater, flip_active, other_slot}
use fuse_scrollfs.Archive.Updater.Commit.{commit_journal, superblock_of}
use fuse_scrollfs.Archive.Updater.Steps.{io_sync-bind}
use fuse_scrollfs.BlockIo.FaultIo.{FaultIo, fault_block_io, len}
use fuse_scrollfs.BlockIo.FaultIo.Crash.{Extends-apply_all}
use fuse_scrollfs.Bytes.{Bytes, length-slice, slice, u32_mod, u64_mod}
use fuse_scrollfs.Prelude.{
  List, Option, [], ap, append-nil, ap₂, arith, inl, length, none, refl, some, sym, ℕ, ◌*◌, ◌+◌,
  ◌<◌, ◌∙◌, ◌≡◌,
}
use fuse_scrollfs.Prelude.Exec.{Ensures}
use mathlib.Core.Path.{subst}

-- The superblock that `commit_journal` writes, and the archive that it makes.
abbrev pub journal_superblock : Updater FaultIo → SuperBlock
journal_superblock u = superblock_of u u.committed_index u.committed_head_cache

abbrev pub journal_archive : Updater FaultIo → ActiveArchive → List Bytes → ActiveArchive
journal_archive u a ps = archive_at u.inactive_off (journal_superblock u) a.index (some (concat ps))

-- The index was not changed since the archive was committed, the journal is not empty, and the
-- fields fit their widths.
pub record JournalReady (u : Updater FaultIo) (a : ActiveArchive) (ps : List Bytes) : Type 0 where
  pub index_offset : u.committed_index.0 ≡ a.sb.index_offset
  pub index_len : u.committed_index.1 ≡ a.sb.index_len
  pub index_crc : u.committed_index.2 ≡ a.sb.index_crc
  pub count : length u.index ≡ a.sb.chunk_count
  pub chunk_size : u.chunk_size ≡ a.sb.chunk_size
  pub chunk_size-lt : u.chunk_size < u32_mod
  pub seq : u.active_seq + 1 < u64_mod
  pub size : u.uncompressed_size < u64_mod
  pub cursor-lt : u.write_cursor < u64_mod
  pub cached : HeadFits u.committed_head_cache
  pub some_journal : 0 < u.journal_len
  pub payloads_fit : PayloadsFit ps

module _ (crc32 : Bytes → ℕ) where
  first_payload_nil : first_payload crc32 [] ≡ none
  unfolding first_payload
  first_payload_nil = refl

module _ (crc32 : Bytes → ℕ) (u32 : IsCrc32 crc32) where
  -- Records that fill a region are replayed whole.
  replay_whole :
      (buf : Bytes) (ps : List Bytes)
      → PayloadsFit ps
      → length buf < u64_mod
      → buf ≡ serialize_records crc32 ps
      → replay_journal crc32 buf ≡ record { plain = concat ps; consumed = length buf }
  replay_whole buf ps fit l e =
      let n = append-nil (serialize_records crc32 ps) in
      ap (replay_journal crc32) (e ∙ sym n)
      ∙ replay-serialize crc32 ps [] u32 fit (first_payload_nil crc32)
          (omega (arith, ap (λ b. length b) (e ∙ sym n), l))
      ∙ ap (λ k. record { plain = concat ps; consumed = length k }) (sym e)

  -- The region of the journal in what is staged.
  journal-JournalIn :
      (u : Updater FaultIo) (a : ActiveArchive) (ps : List Bytes) (o : Option ℕ)
      → u.journal_offset ≡ o
      → JournalReady u a ps
      → Journaled crc32 u ps
      → JournalIn crc32 (staged u) u.write_cursor (journal_superblock u) (some (concat ps))
  journal-JournalIn u a ps none eq r j =
      let (len, empty) =
        subst (λ o. JournalAt crc32 o u.journal_len (staged u) u.write_cursor ps) eq j.journal in
      absurd (omega (arith, len, r.some_journal))
  journal-JournalIn u a ps (some joff) eq r j =
      let (start, fits, same) =
        subst (λ o. JournalAt crc32 o u.journal_len (staged u) u.write_cursor ps) eq j.journal in
      let n = length-slice joff u.journal_len (staged u) (omega (arith, fits, j.cursor_staged)) in
      subst
        (λ o.
          JournalIn crc32 (staged u) u.write_cursor
            (superblock_of (record u { journal_offset = o }) u.committed_index
              u.committed_head_cache)
            (some (concat ps)))
        (sym eq)
        (
          r.some_journal,
          start,
          fits,
          replay_whole (slice joff u.journal_len (staged u)) ps r.payloads_fit
                (omega (arith, n, fits, r.cursor-lt)) same
              ∙ ap (λ k. record { plain = concat ps; consumed = k }) n,
        )

  journal_superblock-FitsWidths :
      (u : Updater FaultIo) (reach : ℕ) (a : ActiveArchive) (ps : List Bytes)
      → JournalReady u a ps
      → Tracks crc32 u reach a
      → JournalIn crc32 (staged u) u.write_cursor (journal_superblock u) (some (concat ps))
      → FitsWidths (journal_superblock u)
  journal_superblock-FitsWidths u reach a ps r t (p, s, e, x) =
      let us = t.holds.usable in
      record {
        seq = r.seq;
        chunk_size = r.chunk_size-lt;
        uncompressed_size = r.size;
        chunk_count = omega (arith, r.count, us.count);
        index_offset = omega (arith, r.index_offset, us.index_end, us.reach-lt);
        index_len = omega (arith, r.index_len, us.index_end, us.reach-lt);
        index_crc = subst (λ n. n < u32_mod) (us.index_crc ∙ sym r.index_crc) (u32.is_u32 _);
        tail_journal_offset = omega (arith, e, r.cursor-lt);
        tail_journal_len = omega (arith, e, r.cursor-lt);
        head_cache = r.cached;
      }

  -- The superblock refers to the index of the committed archive and to the journal.
  journal_superblock-Usable :
      (u : Updater FaultIo) (reach : ℕ) (a : ActiveArchive) (ps : List Bytes)
      → JournalReady u a ps
      → Tracks crc32 u reach a
      → JournalIn crc32 (staged u) u.write_cursor (journal_superblock u) (some (concat ps))
      → Usable crc32 (staged u) u.write_cursor (journal_superblock u) a.index (some (concat ps))
  journal_superblock-Usable u reach a ps r t j =
      let x = Extends-apply_all reach u.io.durable u.io.dirty t.holds.reach-le t.pending in
      let us =
        Usable-agree crc32 u.io.durable (staged u) reach x.same a.sb a.index a.tail_journal
          t.holds.usable in
      let e = ap₂ (λ o n. slice o n (staged u)) r.index_offset r.index_len in
      record {
        chunk_size = omega (arith, r.chunk_size, us.chunk_size);
        count = omega (arith, r.count, us.count);
        index_len = r.index_len ∙ us.index_len ∙ ap (λ n. n * index_entry_len) (sym r.count);
        index_start = omega (arith, r.index_offset, us.index_start);
        index_end = omega (arith, r.index_offset, r.index_len, us.index_end, t.cursor);
        reach-lt = r.cursor-lt;
        index_crc = ap crc32 e ∙ us.index_crc ∙ sym r.index_crc;
        parsed = ap₂ parse_index e r.count ∙ us.parsed;
        entries = subst (λ n. EntriesIn n a.index) (sym r.index_offset) us.entries;
        journal = j;
      }

  -- What a commit of the journal ends with.
  abbrev pub JournalDone : Updater FaultIo → ActiveArchive → List Bytes → Updater FaultIo → Type 0
  JournalDone u a ps v =
      Tracks crc32 v u.write_cursor (journal_archive u a ps)
      × ((mask : ℕ) → Opens crc32 v.io mask (journal_archive u a ps))

  journal_done :
      (u : Updater FaultIo) (a : ActiveArchive) (ps : List Bytes) (io : FaultIo)
      → Committed crc32 io u.write_cursor (journal_archive u a ps)
      → JournalDone u a ps (flip_active (u.active_seq + 1) (record u { io = io }))
  unfolding flip_active
  journal_done u a ps io d =
      let v : Updater FaultIo = record u {
        io = io;
        active_seq = u.active_seq + 1;
        inactive_off = other_slot u.inactive_off;
      } in
      let t =
        Committed-Tracks crc32 v u.write_cursor (journal_archive u a ps) d (omega arith) refl
          refl in
      (t, Opens-Tracks crc32 v u.write_cursor (journal_archive u a ps) t)

  -- From an updater that tracks a committed archive, with the index of that archive, a journal of
  -- at least one byte made of whole records and fields that fit their widths, on a device whose
  -- writes and barriers may fail but are not torn or softened, commit_journal either succeeds and
  -- then every crash leaves the archive with these records replayed in order, or fails and then
  -- every crash leaves the old archive or that one.
  pub commit_journal-atomic :
      (u : Updater FaultIo) (reach : ℕ) (a : ActiveArchive) (ps : List Bytes)
      → Tracks crc32 u reach a
      → Journaled crc32 u ps
      → JournalReady u a ps
      → Ensures
          (λ _ v. JournalDone u a ps v)
          (OldOrNew crc32 a (journal_archive u a ps))
          (commit_journal crc32 u)
  unfolding commit_journal
  commit_journal-atomic u reach a ps t j r =
      let R : Unit {0} → Updater FaultIo → Type 0 = λ _ v. JournalDone u a ps v in
      let E = OldOrNew crc32 a (journal_archive u a ps) in
      let ji = journal-JournalIn u a ps u.journal_offset refl r j in
      io_sync-bind R E u _ t.honest
        (λ io s.
          write_superblock-bind crc32 u32 R (record u { io = io }) reach u.write_cursor a
            (journal_superblock u) a.index (some (concat ps)) _
            (Ready-sync crc32 u reach u.write_cursor a (journal_superblock u) a.index
              (some (concat ps)) io t s (journal_superblock-FitsWidths u reach a ps r t ji) refl
              j.start j.cursor_staged (journal_superblock-Usable u reach a ps r t ji))
            (λ io' d. journal_done u a ps io' d))
        (λ io c mask. inl (
          Opens-Tracks crc32 (record u { io = io }) reach a
            (Tracks-Unchanged crc32 u reach a io t c) mask))
