-- ===== src/Archive/Recovery/Agree.antt =====
-- Bytes that agree up to `reach` hold the same archive: nothing behind it is looked at.
use fuse_scrollfs.Archive.{ChunkEntry, data_start, sb_len}
use fuse_scrollfs.Archive.Reader.{ActiveArchive}
use fuse_scrollfs.Archive.Recovery.{Holds, IsSlot, JournalIn, Usable}
use fuse_scrollfs.Archive.Superblock.{SuperBlock}
use fuse_scrollfs.Archive.Updater.{other_slot}
use fuse_scrollfs.Bytes.{Bytes, slice}
use fuse_scrollfs.Prelude.{
  List, Option, ap, arith, drop, drop-take, length, none, some, sym, take, take-take, ℕ, ◌+◌, ◌∙◌,
  ◌≡◌, ◌≤◌,
}

pub slice_agree :
    (img img' : Bytes) (reach off n : ℕ)
    → take reach img' ≡ take reach img
    → off + n ≤ reach
    → slice off n img' ≡ slice off n img
slice_agree img img' reach off n e h =
    sym (drop-take off n img')
    ∙ ap (drop off) (
        sym (take-take (off + n) reach img' h)
        ∙ ap (take (off + n)) e
        ∙ take-take (off + n) reach img h)
    ∙ drop-take off n img

module _ (crc32 : Bytes → ℕ) (img img' : Bytes) (reach : ℕ)
    (same : take reach img' ≡ take reach img) where
  JournalIn-agree :
      (sb : SuperBlock) (tail : Option Bytes)
      → JournalIn crc32 img reach sb tail
      → JournalIn crc32 img' reach sb tail
  JournalIn-agree sb none h = h
  JournalIn-agree sb (some plain) (p, s, e, r) =
      (p, s, e, rw (slice_agree img img' reach sb.tail_journal_offset sb.tail_journal_len same e) r)

  pub Usable-agree :
      (sb : SuperBlock) (index : List ChunkEntry) (tail : Option Bytes)
      → Usable crc32 img reach sb index tail
      → Usable crc32 img' reach sb index tail
  Usable-agree sb index tail u =
      let e = slice_agree img img' reach sb.index_offset sb.index_len same u.index_end in
      record {
        chunk_size = u.chunk_size;
        count = u.count;
        index_len = u.index_len;
        index_start = u.index_start;
        index_end = u.index_end;
        reach-lt = u.reach-lt;
        index_crc = rw e u.index_crc;
        parsed = rw e u.parsed;
        entries = u.entries;
        journal = JournalIn-agree sb tail u.journal;
      }

  slot_agree :
      (off : ℕ)
      → IsSlot off
      → data_start ≤ reach
      → (slice off sb_len img' ≡ slice off sb_len img)
        × (slice (other_slot off) sb_len img' ≡ slice (other_slot off) sb_len img)
  slot_agree off s h = (
    slice_agree img img' reach off sb_len same (ground arith),
    slice_agree img img' reach (other_slot off) sb_len same (ground arith),
  )

  pub Holds-agree :
      (a : ActiveArchive) → reach ≤ length img' → Holds crc32 img reach a → Holds crc32 img' reach a
  Holds-agree a l h =
      let (e, e') = slot_agree a.off h.is_slot h.start in
      record {
        start = h.start;
        reach-le = l;
        is_slot = h.is_slot;
        slot = rw e h.slot;
        loser = rw e' h.loser;
        usable = Usable-agree a.sb a.index a.tail_journal h.usable;
      }
