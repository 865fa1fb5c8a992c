-- ===== src/Archive/Recovery/Opens.antt =====
-- Bytes that hold an archive open as that archive.
use fuse_scrollfs.Archive.{ChunkEntry, data_start, sb_a_offset, sb_b_offset, sb_len}
use fuse_scrollfs.Archive.Reader.{
  ActiveArchive, Candidate, first_valid, load_active, push_candidate, read_sb_slot, sort_by_seq,
}
use fuse_scrollfs.Archive.Recovery.{EntriesIn, Holds, JournalIn, Loses, Usable}
use fuse_scrollfs.Archive.Superblock.{SuperBlock, parse_superblock}
use fuse_scrollfs.Archive.Validate.{
  accept, check_entries, load_tail_journal, validate_and_load_index,
}
use fuse_scrollfs.BlockIo.FaultIo.{fault_block_io, from_bytes, read_at}
use fuse_scrollfs.Bytes.{Bytes, length-slice, slice, u64_mod}
use fuse_scrollfs.Prelude.{
  List, Option, [], ap, arith, inl, inr, length, none, refl, some, ℕ, ◌+◌, ◌<◌, ◌∙◌, ◌∷◌, ◌≡◌, ◌≤◌,
}
use fuse_scrollfs.Prelude.Result.{ok}
use native.Mathlib.Nat.{le_trans}

check_entries-EntriesIn :
    (end : ℕ) (index : List ChunkEntry)
    → end < u64_mod
    → EntriesIn end index
    → check_entries end index ≡ accept tt
unfolding check_entries
check_entries-EntriesIn end [] l h = refl
check_entries-EntriesIn end (e ∷ index) l h =
    ground (arith, check_entries-EntriesIn end index l h.2)

module _ (crc32 : Bytes → ℕ) (img : Bytes) where
  -- A machine that restarts reads the bytes that the crash left.
  pub read_at-from_bytes :
      (off n : ℕ) → off + n ≤ length img → read_at (from_bytes img) off n ≡ ok (slice off n img)
  unfolding read_at from_bytes
  read_at-from_bytes off n h = ground arith

  load_tail_journal-JournalIn :
      (reach : ℕ) (sb : SuperBlock) (tail : Option Bytes)
      → reach ≤ length img
      → reach < u64_mod
      → JournalIn crc32 img reach sb tail
      → load_tail_journal crc32 (from_bytes img) sb (length img) ≡ accept tail
  unfolding load_tail_journal fault_block_io
  load_tail_journal-JournalIn reach sb none l b h = ground arith
  load_tail_journal-JournalIn reach sb (some plain) l b (p, s, e, r) =
      let j = slice sb.tail_journal_offset sb.tail_journal_len img in
      ground (
        arith,
        r,
        read_at-from_bytes sb.tail_journal_offset sb.tail_journal_len,
        length-slice sb.tail_journal_offset sb.tail_journal_len img,
      )

  validate-Usable :
      (reach : ℕ) (sb : SuperBlock) (index : List ChunkEntry) (tail : Option Bytes)
      → reach ≤ length img
      → Usable crc32 img reach sb index tail
      → validate_and_load_index crc32 (from_bytes img) sb (length img) ≡ accept (index, tail)
  unfolding validate_and_load_index fault_block_io
  validate-Usable reach sb index tail l u = ground (
    arith,
    u,
    u.index_crc,
    u.parsed,
    read_at-from_bytes sb.index_offset sb.index_len,
    check_entries-EntriesIn sb.index_offset index,
    u.entries,
    load_tail_journal-JournalIn reach sb tail l u.reach-lt u.journal,
  )

-- The winner of the two slots comes first in the sorted candidates.
sort_winner_a :
    (sb : SuperBlock) (o : Option SuperBlock)
    → Loses sb_a_offset sb.seq o
    → (rest : List Candidate) × (sort_by_seq
          (push_candidate (push_candidate [] (some sb) sb_a_offset) o sb_b_offset)
        ≡ (sb, sb_a_offset) ∷ rest)
sort_winner_a sb none h = ([], refl)
sort_winner_a sb (some loser) h = ((loser, sb_b_offset) ∷ [], ground arith)

sort_winner_b :
    (sb : SuperBlock) (o : Option SuperBlock)
    → Loses sb_b_offset sb.seq o
    → (rest : List Candidate) × (sort_by_seq
          (push_candidate (push_candidate [] o sb_a_offset) (some sb) sb_b_offset)
        ≡ (sb, sb_b_offset) ∷ rest)
sort_winner_b sb none h = ([], refl)
sort_winner_b sb (some loser) h = ((loser, sb_a_offset) ∷ [], ground arith)

module _ (crc32 : Bytes → ℕ) (img : Bytes) where
  read_sb_slot-from_bytes :
      (off : ℕ)
      → off + sb_len ≤ length img
      → read_sb_slot crc32 (from_bytes img) off ≡ ok (parse_superblock crc32 (slice off sb_len img))
  unfolding read_sb_slot fault_block_io
  read_sb_slot-from_bytes off h = rw (read_at-from_bytes crc32 img off sb_len h)

  first_valid-Usable :
      (reach : ℕ) (a : ActiveArchive) (rest : List Candidate)
      → reach ≤ length img
      → Usable crc32 img reach a.sb a.index a.tail_journal
      → first_valid crc32 (from_bytes img) (length img) ((a.sb, a.off) ∷ rest) ≡ ok a
  unfolding first_valid
  first_valid-Usable reach a rest l u =
      rw (validate-Usable crc32 img reach a.sb a.index a.tail_journal l u)

  load_active_winner :
      (a : ActiveArchive) (pa pb : Option SuperBlock) (rest : List Candidate)
      → read_sb_slot crc32 (from_bytes img) sb_a_offset ≡ ok pa
      → read_sb_slot crc32 (from_bytes img) sb_b_offset ≡ ok pb
      → sort_by_seq (push_candidate (push_candidate [] pa sb_a_offset) pb sb_b_offset)
        ≡ (a.sb, a.off) ∷ rest
      → first_valid crc32 (from_bytes img) (length img) ((a.sb, a.off) ∷ rest) ≡ ok a
      → load_active crc32 (from_bytes img) (length img) ≡ ok a
  unfolding load_active
  load_active_winner a pa pb rest ea eb es ev = rw (ea, eb, es) ev

  -- If the first bytes of a device hold an archive, with its superblock in one slot, a losing or
  -- invalid other slot and all it refers to intact, load_active opens exactly that archive.
  pub load_active-Holds :
      (reach : ℕ) (a : ActiveArchive)
      → Holds crc32 img reach a
      → load_active crc32 (from_bytes img) (length img) ≡ ok a
  load_active-Holds reach a h =
      let first = λ (rest : List Candidate). first_valid-Usable reach a rest h.reach-le h.usable in
      let at = λ (off : ℕ) (fits : off + sb_len ≤ data_start).
        read_sb_slot-from_bytes off (le_trans fits (le_trans h.start h.reach-le)) in
      elim h.is_slot [
        | inl at_a ↦
            let slot = rw at_a at h.slot in
            let (rest, sorted) = sort_winner_a a.sb _ (rw at_a at h.loser) in
            load_active_winner a (some a.sb) _ rest (at sb_a_offset (omega arith) ∙ ap ok slot)
              (at sb_b_offset (omega arith)) (rw at_a sorted) (first rest)
        | inr at_b ↦
            let slot = rw at_b at h.slot in
            let (rest, sorted) = sort_winner_b a.sb _ (rw at_b at h.loser) in
            load_active_winner a _ (some a.sb) rest (at sb_a_offset (omega arith))
              (at sb_b_offset (omega arith) ∙ ap ok slot) (rw at_b sorted) (first rest)
      ]
