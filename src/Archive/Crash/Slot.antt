-- ===== src/Archive/Crash/Slot.antt =====
-- The write of the inactive slot by crates/scrollz/src/archive/updater.rs, and a crash around it.
use fuse_scrollfs.Archive.{ChunkEntry, IsCrc32, data_start, sb_len}
use fuse_scrollfs.Archive.Crash.{OldOrNew, Opens, Opens-Holds}
use fuse_scrollfs.Archive.Reader.{ActiveArchive}
use fuse_scrollfs.Archive.Recovery.{Holds, IsSlot, JournalIn, Loses, Usable}
use fuse_scrollfs.Archive.Superblock.{SuperBlock, parse_superblock, serialize_superblock}
use fuse_scrollfs.Archive.Superblock.RoundTrip.{
  FitsWidths, length-serialize_superblock, parse-serialize_superblock,
}
use fuse_scrollfs.Archive.Updater.{Updater, io_sync, io_write, other_slot}
use fuse_scrollfs.Archive.Updater.Commit.{write_superblock}
use fuse_scrollfs.Archive.Updater.Steps.{io_sync-bind, io_write-bind}
use fuse_scrollfs.BlockIo.FaultIo.{FaultIo, PendingWrite, apply, apply_all, fault_block_io}
use fuse_scrollfs.BlockIo.FaultIo.Apply.{
  length-apply, slice-apply_after, slice-apply_before, slice-apply_self,
}
use fuse_scrollfs.BlockIo.FaultIo.Crash.{
  IsHonest, Synced, Unchanged, Wrote, apply_all-append, crash_with_mask_none, crash_with_mask_one,
}
use fuse_scrollfs.Bytes.{Bytes, slice}
use fuse_scrollfs.Prelude.{
  List, Option, [], ap, append-nil, arith, inl, inr, length, none, some, sym, ℕ, ◌++◌, ◌+◌, ◌<◌,
  ◌∙◌, ◌∷◌, ◌≡◌, ◌≤◌, ◌⊎◌,
}
use fuse_scrollfs.Prelude.Exec.{Ensures, Exec, continue_with_assoc, ◌>>=◌}
use mathlib.Core.Path.{subst}
use native.Mathlib.Nat.{le_trans}

abbrev pub archive_at : ℕ → SuperBlock → List ChunkEntry → Option Bytes → ActiveArchive
archive_at off sb index tail = record { sb = sb; off = off; index = index; tail_journal = tail }

module _ (crc32 : Bytes → ℕ) where
  -- What the write of a new superblock starts from: nothing pending, the old archive in place, and
  -- in the durable bytes all that the new superblock refers to.
  pub record Ready (io : FaultIo) (off : ℕ) (reach reach' : ℕ) (a : ActiveArchive) (sb : SuperBlock)
      (index : List ChunkEntry) (tail : Option Bytes) : Type 0 where
    pub honest : IsHonest io
    pub dirty : io.dirty ≡ []
    pub holds : Holds crc32 io.durable reach a
    pub off_eq : off ≡ other_slot a.off
    pub fits : FitsWidths sb
    pub newer : a.sb.seq < sb.seq
    pub start : data_start ≤ reach'
    pub long : reach' ≤ length io.durable
    pub usable : Usable crc32 io.durable reach' sb index tail

  -- A success leaves the new archive durable with nothing pending.
  pub record Committed (io : FaultIo) (reach : ℕ) (a : ActiveArchive) : Type 0 where
    pub honest : IsHonest io
    pub dirty : io.dirty ≡ []
    pub holds : Holds crc32 io.durable reach a

module _ (crc32 : Bytes → ℕ) (u32 : IsCrc32 crc32) where
  -- A superblock's write lies below all that a superblock refers to.
  JournalIn-slot :
      (img : Bytes) (off : ℕ) (bytes : Bytes) (reach : ℕ) (sb : SuperBlock) (tail : Option Bytes)
      → off + length bytes ≤ data_start
      → reach ≤ length img
      → JournalIn crc32 img reach sb tail
      → JournalIn crc32 (apply img off bytes) reach sb tail
  JournalIn-slot img off bytes reach sb none h l j = j
  JournalIn-slot img off bytes reach sb (some plain) h l (p, s, e, r) = (
    p,
    s,
    e,
    rw
        (slice-apply_after img off bytes sb.tail_journal_offset sb.tail_journal_len (le_trans h s)
          (le_trans e l))
        r,
  )

  Usable-slot :
      (img : Bytes) (off : ℕ) (bytes : Bytes) (reach : ℕ) (sb : SuperBlock)
      (index : List ChunkEntry) (tail : Option Bytes)
      → off + length bytes ≤ data_start
      → reach ≤ length img
      → Usable crc32 img reach sb index tail
      → Usable crc32 (apply img off bytes) reach sb index tail
  Usable-slot img off bytes reach sb index tail h l u =
      let e =
        slice-apply_after img off bytes sb.index_offset sb.index_len (le_trans h u.index_start)
          (le_trans u.index_end l) in
      record {
        chunk_size = u.chunk_size;
        count = u.count;
        index_len = u.index_len;
        index_start = u.index_start;
        index_end = u.index_end;
        reach-lt = u.reach-lt;
        index_crc = rw e u.index_crc;
        parsed = rw e u.parsed;
        entries = u.entries;
        journal = JournalIn-slot img off bytes reach sb tail h l u.journal;
      }

  other_slot-IsSlot : (off : ℕ) → IsSlot off → IsSlot (other_slot off)
  other_slot-IsSlot off s = ground arith

  other_slot_twice : (off : ℕ) → IsSlot off → other_slot (other_slot off) ≡ off
  other_slot_twice off s = ground arith

  -- The slots lie side by side before the data.
  slots_apart :
      (off : ℕ) → IsSlot off → (off + sb_len ≤ other_slot off) ⊎ (other_slot off + sb_len ≤ off)
  slots_apart off s = ground arith

  slot_fits : (off : ℕ) → IsSlot off → off + sb_len ≤ data_start
  slot_fits off s = ground arith

  slot_kept :
      (img : Bytes) (off : ℕ) (bytes : Bytes)
      → IsSlot off
      → data_start ≤ length img
      → length bytes ≡ sb_len
      → slice off sb_len (apply img (other_slot off) bytes) ≡ slice off sb_len img
  slot_kept img off bytes s l n =
      let fits = le_trans (slot_fits off s) l in
      elim (slots_apart off s) [
        | inl before ↦ slice-apply_before img (other_slot off) bytes off sb_len before fits
        | inr behind ↦ slice-apply_after img (other_slot off) bytes off sb_len (omega arith) fits
      ]

  pub Holds-slot :
      (img : Bytes) (reach reach' : ℕ) (a : ActiveArchive) (sb : SuperBlock)
      (index : List ChunkEntry) (tail : Option Bytes)
      → Holds crc32 img reach a
      → FitsWidths sb
      → a.sb.seq < sb.seq
      → data_start ≤ reach'
      → reach' ≤ length img
      → Usable crc32 img reach' sb index tail
      → Holds crc32
          (apply img (other_slot a.off) (serialize_superblock crc32 sb))
          reach'
          (record { sb = sb; off = other_slot a.off; index = index; tail_journal = tail })
  Holds-slot img reach reach' a sb index tail h fit newer s l u =
      let off = other_slot a.off in
      let bytes = serialize_superblock crc32 sb in
      let n = length-serialize_superblock crc32 sb in
      let img' = apply img off bytes in
      let written : slice off sb_len img' ≡ bytes ++ [] =
        ap (λ k. slice off k img') (sym n)
        ∙ slice-apply_self img off bytes
        ∙ sym (append-nil bytes) in
      let old : parse_superblock crc32 (slice (other_slot off) sb_len img') ≡ some a.sb =
        ap (λ o. parse_superblock crc32 (slice o sb_len img')) (other_slot_twice a.off h.is_slot)
        ∙ ap (parse_superblock crc32) (slot_kept img a.off bytes h.is_slot (le_trans s l) n)
        ∙ h.slot in
      record {
        start = s;
        reach-le = omega (arith, length-apply img off bytes);
        is_slot = other_slot-IsSlot a.off h.is_slot;
        slot = ap (parse_superblock crc32) written ∙ parse-serialize_superblock crc32 sb [] u32 fit;
        loser = subst (λ o. Loses off sb.seq o) (sym old) (inl newer);
        usable =
            Usable-slot img off bytes reach' sb index tail
              (omega (arith, n, slot_fits off (other_slot-IsSlot a.off h.is_slot))) l u;
      }

  -- With the slot written the new archive is in place.
  Ready-new :
      (st : FaultIo) (off reach reach' : ℕ) (a : ActiveArchive) (sb : SuperBlock)
      (index : List ChunkEntry) (tail : Option Bytes)
      → Ready crc32 st off reach reach' a sb index tail
      → Holds crc32
          (apply st.durable off (serialize_superblock crc32 sb))
          reach'
          (archive_at off sb index tail)
  Ready-new st off reach reach' a sb index tail r =
      subst
        (λ o.
          Holds crc32 (apply st.durable o (serialize_superblock crc32 sb)) reach'
            (archive_at o sb index tail))
        (sym r.off_eq)
        (Holds-slot st.durable reach reach' a sb index tail r.holds r.fits r.newer r.start r.long
          r.usable)

  -- With the slot's write pending a crash leaves the old archive or the new one.
  slot_pending :
      (io st : FaultIo) (off reach reach' : ℕ) (a : ActiveArchive) (sb : SuperBlock)
      (index : List ChunkEntry) (tail : Option Bytes)
      → Ready crc32 st off reach reach' a sb index tail
      → io.durable ≡ st.durable
      → io.dirty ≡ record { off = off; bytes = serialize_superblock crc32 sb } ∷ []
      → (mask : ℕ) → Opens crc32 io mask a ⊎ Opens crc32 io mask (archive_at off sb index tail)
  slot_pending io st off reach reach' a sb index tail r ed ew mask =
      elim (crash_with_mask_one io mask _ ew) [
        | inl lost ↦ inl (
            Opens-Holds crc32 io mask reach a
              (subst (λ d. Holds crc32 d reach a) (sym (lost ∙ ed)) r.holds))
        | inr kept ↦ inr (
            Opens-Holds crc32 io mask reach' (archive_at off sb index tail) (
              subst (λ d. Holds crc32 d reach' (archive_at off sb index tail))
                (sym (kept ∙ ap (λ d. apply d off (serialize_superblock crc32 sb)) ed))
                (Ready-new st off reach reach' a sb index tail r)))
      ]

  -- With nothing pending a crash leaves the durable bytes.
  slot_unwritten :
      (io st : FaultIo) (off reach reach' : ℕ) (a : ActiveArchive) (sb : SuperBlock)
      (index : List ChunkEntry) (tail : Option Bytes)
      → Ready crc32 st off reach reach' a sb index tail
      → Unchanged st io
      → (mask : ℕ) → Opens crc32 io mask a
  slot_unwritten io st off reach reach' a sb index tail r c mask =
      Opens-Holds crc32 io mask reach a (
        subst (λ d. Holds crc32 d reach a)
          (sym (crash_with_mask_none io mask (c.dirty ∙ r.dirty) ∙ c.durable)) r.holds)

  slot_durable :
      (st io io' : FaultIo) (off reach reach' : ℕ) (a : ActiveArchive) (sb : SuperBlock)
      (index : List ChunkEntry) (tail : Option Bytes)
      → Ready crc32 st off reach reach' a sb index tail
      → Wrote st off (serialize_superblock crc32 sb) io
      → Synced io io'
      → Committed crc32 io' reach' (archive_at off sb index tail)
  unfolding apply_all
  slot_durable st io io' off reach reach' a sb index tail r w s =
      let bytes = serialize_superblock crc32 sb in
      let pw : PendingWrite = record { off = off; bytes = bytes } in
      let e : io'.durable ≡ apply st.durable off bytes =
        s.durable
        ∙ ap (λ d. apply_all d io.dirty) w.durable
        ∙ ap (apply_all st.durable) (w.dirty ∙ ap (λ d. d ++ pw ∷ []) r.dirty)
        ∙ apply_all-append st.durable [] pw in
      record {
        honest = s.honest;
        dirty = s.dirty;
        holds =
            subst (λ d. Holds crc32 d reach' (archive_at off sb index tail)) (sym e)
              (Ready-new st off reach reach' a sb index tail r);
      }

  -- The rule for the write of the slot and the barrier behind it: an error leaves the old archive or
  -- the new one after every crash.
  pub write_superblock-bind :
      {A : Type 0} (R : A → Updater FaultIo → Type 0) (u : Updater FaultIo) (reach reach' : ℕ)
      (a : ActiveArchive) (sb : SuperBlock) (index : List ChunkEntry) (tail : Option Bytes)
      (f : Unit → Exec (Updater FaultIo) A)
      → Ready crc32 u.io u.inactive_off reach reach' a sb index tail
      → ((io : FaultIo)
          → Committed crc32 io reach' (archive_at u.inactive_off sb index tail)
          → Ensures R
              (OldOrNew crc32 a (archive_at u.inactive_off sb index tail))
              (f tt (record u { io = io })))
      → Ensures R
          (OldOrNew crc32 a (archive_at u.inactive_off sb index tail))
          ((write_superblock crc32 sb >>= f) u)
  unfolding write_superblock
  write_superblock-bind R u reach reach' a sb index tail f r k =
      let bytes = serialize_superblock crc32 sb in
      let new = archive_at u.inactive_off sb index tail in
      let E = OldOrNew crc32 a new in
      rw (continue_with_assoc f (λ _. io_sync) (io_write u.inactive_off bytes u)) (
        io_write-bind R E u u.inactive_off bytes (λ _. io_sync >>= f) r.honest
          (λ io w.
            io_sync-bind R E (record u { io = io }) f w.honest
              (λ io' s.
                k io' (slot_durable u.io io io' u.inactive_off reach reach' a sb index tail r w s))
              (λ io' c.
                slot_pending io' u.io u.inactive_off reach reach' a sb index tail r
                  (c.durable ∙ w.durable)
                  (c.dirty
                    ∙ w.dirty
                    ∙ ap (λ d. d ++ record { off = u.inactive_off; bytes = bytes } ∷ []) r.dirty)))
          (λ io c mask.
            inl (slot_unwritten io u.io u.inactive_off reach reach' a sb index tail r c mask)))
