-- ===== src/Archive/Crash/ReadBack.antt =====
-- What a reader of crates/scrollz/src/archive/reader.rs finds after a commit of
-- crates/scrollz/src/archive/updater.rs and a crash.
use fuse_scrollfs.Archive.{ChunkEntry, IsCrc32, data_start, sb_len}
use fuse_scrollfs.Archive.Crash.{OldOrNew, Opens, Tracks}
use fuse_scrollfs.Archive.Crash.Commit.{
  CommitDone, Committable, commit-atomic, next_archive, next_reach,
}
use fuse_scrollfs.Archive.Crash.Kept.{KeepsRegions, commit-KeepsRegions}
use fuse_scrollfs.Archive.Crash.Seen.{seen, seen_in, seen_in-same}
use fuse_scrollfs.Archive.Crash.Staging.{staged}
use fuse_scrollfs.Archive.Reader.{ActiveArchive, ArchiveReader, footer_from_sb, read_block}
use fuse_scrollfs.Archive.Recovery.{EntriesIn, IsSlot}
use fuse_scrollfs.Archive.Recovery.Opens.{read_at-from_bytes}
use fuse_scrollfs.Archive.Updater.{Updater, other_slot}
use fuse_scrollfs.Archive.Updater.Commit.{commit}
use fuse_scrollfs.BlockIo.FaultIo.{FaultIo, crash_with_mask, fault_block_io, from_bytes, read_at}
use fuse_scrollfs.BlockIo.FaultIo.Crash.{Extends, Extends-apply_all, Extends-crash_with_mask}
use fuse_scrollfs.Bytes.{Bytes, slice}
use fuse_scrollfs.Prelude.{
  List, Option, Option-cases, [], ap, arith, drop, drop-take, get_elem?, inl, inr, length, none,
  not, refl, some, suc, sym, take, take-take, zero, ℕ, ◌+◌, ◌==◌, ◌∙◌, ◌∷◌, ◌≡◌, ◌≤◌,
}
use fuse_scrollfs.Prelude.Exec.{Ensures, Ensures-mono}
use fuse_scrollfs.Prelude.Result.{Result, err, invalid_data, ok, refuse_if, ◌>>◌}
use mathlib.Core.Path.{subst}

-- The open archive over given bytes.
abbrev pub reader_on : Bytes → ActiveArchive → ArchiveReader FaultIo
reader_on img a = record {
  file = from_bytes img;
  footer = footer_from_sb a.sb;
  index = a.index;
  tail_journal = a.tail_journal;
}

module _ (crc32 : Bytes → ℕ) where
  -- The test of the checksum.
  abbrev pub checked : Option (Bytes × ChunkEntry) → Result (Option (Bytes × ChunkEntry))
  checked none = ok none
  checked (some (buf, e)) =
      refuse_if (not (crc32 buf == e.block_crc)) invalid_data >> ok (some (buf, e))

  read_entry :
      (img : Bytes) (n : ℕ) (index : List ChunkEntry) (i : ℕ) (e : ChunkEntry)
      → EntriesIn n index
      → n ≤ length img
      → get_elem? index i ≡ some e
      → read_at (from_bytes img) e.offset e.clen ≡ ok (slice e.offset e.clen img)
  read_entry img n [] i e h l q = absurd cc
  read_entry img n (x ∷ index) zero e h l q =
      let r : x ≡ e = cc in
      subst (λ y. read_at (from_bytes img) y.offset y.clen ≡ ok (slice y.offset y.clen img)) r
        (read_at-from_bytes crc32 img x.offset x.clen (omega (arith, h.1, l)))
  read_entry img n (x ∷ index) (suc i) e h l q = read_entry img n index i e h.2 l q

  pub read_block-checked :
      (img : Bytes) (n : ℕ) (a : ActiveArchive) (i : ℕ)
      → EntriesIn n a.index
      → n ≤ length img
      → read_block crc32 (reader_on img a) i ≡ checked (seen_in img a.index i)
  unfolding read_block fault_block_io
  read_block-checked img n a i h l = elim (Option-cases (get_elem? a.index i)) [
    | inl q ↦ rw (read_block, q) refl
    | inr (e, q) ↦ rw (read_block, q, read_entry img n a.index i e h l q) refl
  ]

pub Extends-slice :
    (reach : ℕ) (img img' : Bytes) (off k : ℕ)
    → Extends reach img img'
    → off + k ≤ reach
    → slice off k img' ≡ slice off k img
Extends-slice reach img img' off k x h =
    sym (drop-take off k img')
    ∙ ap (drop off) (
        sym (take-take (off + k) reach img' h)
        ∙ ap (take (off + k)) x.same
        ∙ take-take (off + k) reach img h)
    ∙ drop-take off k img

Ensures-both :
    {S A : Type 0} (Q R : A → S → Type 0) (E F : S → Type 0) (r : Result A × S)
    → Ensures Q E r
    → Ensures R F r
    → Ensures (λ a s. Q a s × R a s) E r
Ensures-both Q R E F (ok a, s) h k = (h, k)
Ensures-both Q R E F (err e, s) h k = h

module _ (crc32 : Bytes → ℕ) (u32 : IsCrc32 crc32) where
  -- Every crash leaves the new archive, and each of its blocks is read as it was written.
  pub record ReadsBack (u v : Updater FaultIo) : Type 0 where
    pub opens : (mask : ℕ) → Opens crc32 v.io mask (next_archive crc32 u)
    pub read :
        (mask i : ℕ)
        → read_block crc32 (reader_on (crash_with_mask v.io mask) (next_archive crc32 u)) i
          ≡ checked crc32 (seen u i)

  committed-ReadsBack :
      (u v : Updater FaultIo)
      → Committable u
      → CommitDone crc32 u32 u v
      → KeepsRegions u.write_cursor (staged u) v.io
      → ReadsBack u v
  committed-ReadsBack u v c (t, opens) k = record {
    opens = opens;
    read = λ mask i.
        let x = Extends-crash_with_mask v.io (next_reach u) mask t.holds.reach-le t.pending in
        let y =
          Extends-apply_all (next_reach u) v.io.durable v.io.dirty t.holds.reach-le t.pending in
        let img = crash_with_mask v.io mask in
        read_block-checked crc32 img u.write_cursor (next_archive crc32 u) i c.entries_in
          (omega (arith, x.long))
        ∙ ap (checked crc32) (
            seen_in-same u.write_cursor (staged u) img u.index i
              (λ off n s h.
                Extends-slice (next_reach u) v.io.durable img off n x (omega (arith, h))
                ∙ sym (
                    Extends-slice (next_reach u) v.io.durable (staged v) off n y (omega (arith, h)))
                ∙ k.same off n s h)
              c.entries_in);
  }

  slot_fits : (off : ℕ) → IsSlot off → other_slot off + sb_len ≤ data_start
  slot_fits off s = ground arith

  pub commit-ReadsBack :
      (u : Updater FaultIo) (reach : ℕ) (a : ActiveArchive)
      → Tracks crc32 u reach a
      → u.write_cursor ≤ length (staged u)
      → Committable u
      → Ensures (λ _ v. ReadsBack u v) (OldOrNew crc32 a (next_archive crc32 u)) (commit crc32 u)
  commit-ReadsBack u reach a t l c =
      let k : KeepsRegions u.write_cursor (staged u) u.io = record {
        honest = t.honest;
        same = λ off n s h. refl;
        long = l;
      } in
      let E = OldOrNew crc32 a (next_archive crc32 u) in
      let fits = slot_fits a.off t.holds.is_slot in
      Ensures-mono (λ _ v. CommitDone crc32 u32 u v × KeepsRegions u.write_cursor (staged u) v.io)
        (λ _ v. ReadsBack u v) E (commit crc32 u) (λ _ v h. committed-ReadsBack u v c h.0 h.1)
        (Ensures-both (λ _ v. CommitDone crc32 u32 u v)
          (λ _ v. KeepsRegions u.write_cursor (staged u) v.io) E (λ _. Unit) (commit crc32 u)
          (commit-atomic crc32 u32 u reach a t c)
          (commit-KeepsRegions crc32 u.write_cursor (staged u) u k (omega arith)
            (omega (arith, fits, t.inactive_off))))
