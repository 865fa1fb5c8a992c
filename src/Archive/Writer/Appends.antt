-- ===== src/Archive/Writer/Appends.antt =====
-- The blocks that crates/scrollz/src/archive/writer.rs appends.
use fuse_scrollfs.Archive.{ChunkEntry, IsCrc32, data_start}
use fuse_scrollfs.Archive.Crash.Blocks.{EntriesIn-mono, EntriesIn-snoc}
use fuse_scrollfs.Archive.Index.{EntriesFit, EntryFits}
use fuse_scrollfs.Archive.Recovery.{EntriesIn}
use fuse_scrollfs.Archive.Updater.{verbatim_flags}
use fuse_scrollfs.Archive.Writer.{ArchiveWriter, append_block}
use fuse_scrollfs.Archive.Writer.Layout.{
  Block, Stored, Wrote, append_blocks, slice-append_left, splice_end,
}
use fuse_scrollfs.Bytes.{Bytes, splice, u32_mod}
use fuse_scrollfs.Prelude.{
  Bool, List, [], ap, append-nil, append_assoc, arith, drop-append_at, false, length, length-append,
  refl, sym, take, take_all, true, ℕ, ◌++◌, ◌+◌, ◌<◌, ◌∙◌, ◌∷◌, ◌≡◌, ◌≤◌,
}
use mathlib.Core.Path.{subst}

abbrev pub entry_at : (Bytes → ℕ) → ℕ → Bytes → Bool → ChunkEntry
entry_at crc32 cursor bytes verbatim = record {
  offset = cursor;
  clen = length bytes;
  flags = verbatim_flags verbatim;
  block_crc = crc32 bytes;
}

verbatim_flags-lt : (v : Bool) → verbatim_flags v < u32_mod
verbatim_flags-lt true = omega arith
verbatim_flags-lt false = omega arith

EntriesFit-snoc :
    (index : List ChunkEntry) (e : ChunkEntry)
    → EntriesFit index
    → EntryFits e
    → EntriesFit (index ++ e ∷ [])
EntriesFit-snoc [] e h f = (f, tt)
EntriesFit-snoc (x ∷ index) e h f = (h.0, EntriesFit-snoc index e h.1 f)

module _ (crc32 : Bytes → ℕ) where
  -- More bytes behind the blocks do not matter.
  pub Stored-more :
      (img more : Bytes) (index : List ChunkEntry) (blocks : List Block)
      → EntriesIn (length img) index
      → Stored crc32 img index blocks
      → Stored crc32 (img ++ more) index blocks
  Stored-more img more [] [] i h = tt
  Stored-more img more (e ∷ index) ((bytes, verbatim, raw_len) ∷ blocks) i h = (
    slice-append_left e.offset e.clen img more i.1 ∙ h.0,
    h.1,
    h.2,
    Stored-more img more index blocks i.2 h.3,
  )
  Stored-more img more [] (b ∷ blocks) i h = absurd h
  Stored-more img more (e ∷ index) [] i h = absurd h

  Stored-snoc :
      (img bytes : Bytes) (cursor raw_len : ℕ) (verbatim : Bool) (index : List ChunkEntry)
      (blocks : List Block)
      → cursor ≡ length img
      → EntriesIn (length img) index
      → Stored crc32 img index blocks
      → Stored crc32
          (img ++ bytes)
          (index ++ entry_at crc32 cursor bytes verbatim ∷ [])
          (blocks ++ (bytes, verbatim, raw_len) ∷ [])
  Stored-snoc img bytes cursor raw_len verbatim [] [] e i h = (
    ap (take (length bytes)) (drop-append_at cursor img bytes e)
        ∙ take_all (length bytes) bytes (omega arith),
    refl,
    refl,
    tt,
  )
  Stored-snoc img bytes cursor raw_len verbatim (x ∷ index) ((xs, v, n) ∷ blocks) e i h = (
    slice-append_left x.offset x.clen img bytes i.1 ∙ h.0,
    h.1,
    h.2,
    Stored-snoc img bytes cursor raw_len verbatim index blocks e i.2 h.3,
  )
  Stored-snoc img bytes cursor raw_len verbatim [] (b ∷ blocks) e i h = absurd h
  Stored-snoc img bytes cursor raw_len verbatim (x ∷ index) [] e i h = absurd h

  module _ (u32 : IsCrc32 crc32) (start : Bytes) where
    pub append_block-Wrote :
        (bytes : Bytes) (verbatim : Bool) (raw_len : ℕ) (w : ArchiveWriter) (blocks : List Block)
        → data_start ≤ w.cursor
        → Wrote crc32 start w blocks
        → Wrote crc32 start
            (append_block crc32 bytes verbatim raw_len w)
            (blocks ++ (bytes, verbatim, raw_len) ∷ [])
    unfolding append_block
    append_block-Wrote bytes verbatim raw_len w blocks l h =
        let e = entry_at crc32 w.cursor bytes verbatim in
        let end = splice_end w.inner.out bytes w.inner.pos h.at_end in
        let n : length (splice w.inner.out w.inner.pos bytes) ≡ length w.inner.out + length bytes =
          ap length end ∙ length-append w.inner.out bytes in
        record {
          body = h.body ++ bytes;
          out = end ∙ ap (λ x. x ++ bytes) h.out ∙ append_assoc start h.body bytes;
          at_end = omega (arith, n, h.at_end);
          cursor = omega (arith, n, h.cursor);
          entries =
              EntriesIn-snoc (w.cursor + length bytes) w.index e
                (EntriesIn-mono w.cursor (w.cursor + length bytes) w.index (omega arith) h.entries)
                l (omega arith);
          fit = λ b.
              EntriesFit-snoc w.index e (h.fit (omega (arith, b)))
                (omega (arith, b), omega (arith, b), verbatim_flags-lt verbatim, u32.is_u32 bytes);
          stored =
              subst
                (λ x.
                  Stored crc32 x (w.index ++ e ∷ []) (blocks ++ (bytes, verbatim, raw_len) ∷ []))
                (sym end)
                (Stored-snoc w.inner.out bytes w.cursor raw_len verbatim w.index blocks h.cursor
                  (subst (λ m. EntriesIn m w.index) h.cursor h.entries) h.stored);
        }

    pub append_blocks-Wrote :
        (more : List Block) (w : ArchiveWriter) (blocks : List Block)
        → data_start ≤ w.cursor
        → Wrote crc32 start w blocks
        → Wrote crc32 start (append_blocks crc32 more w) (blocks ++ more)
    unfolding append_blocks append_block
    append_blocks-Wrote [] w blocks l h = subst (Wrote crc32 start w) (sym (append-nil blocks)) h
    append_blocks-Wrote ((bytes, verbatim, raw_len) ∷ more) w blocks l h =
        subst
          (Wrote crc32 start
            (append_blocks crc32 more (append_block crc32 bytes verbatim raw_len w)))
          (append_assoc blocks ((bytes, verbatim, raw_len) ∷ []) more)
          (append_blocks-Wrote more (append_block crc32 bytes verbatim raw_len w)
            (blocks ++ (bytes, verbatim, raw_len) ∷ []) (omega (arith, l))
            (append_block-Wrote bytes verbatim raw_len w blocks l h))
