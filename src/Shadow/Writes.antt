-- ===== src/Shadow/Writes.antt =====
-- The block writes of crates/scrollz/src/store/shadow.rs do what the interface of the stores asks.
use fuse_scrollfs.Archive.Reader.{ArchiveReader, from_file}
use fuse_scrollfs.BlockCache.{keyed_nat, keyed_pair}
use fuse_scrollfs.BlockIo.{BlockIo}
use fuse_scrollfs.Bytes.{Bytes}
use fuse_scrollfs.Dict.{Keyed, find, find-put_same}
use fuse_scrollfs.Prelude.{
  Option, Option-cases, ap, ap₂, inl, inr, none, refl, some, sym, ℕ, ◌∙◌, ◌≡◌,
}
use fuse_scrollfs.Prelude.Exec.{Ensures}
use fuse_scrollfs.Prelude.Result.{
  Result, err, invalid_data, invalid_input, io_failure, not_found, ok, other_error, unexpected_eof,
  unsupported, would_block, ◌>>=◌,
}
use fuse_scrollfs.Shadow.Backend.{shadow_store}
use fuse_scrollfs.Shadow.Buffer.{WriteSession, session_layer, session_put, session_truncate}
use fuse_scrollfs.Shadow.Failure.{through_both}
use fuse_scrollfs.Shadow.Inodes.{path_of}
use fuse_scrollfs.Shadow.Layers.{
  layer-session_put_other, layer-session_put_same, layer-session_truncate_dropped,
  layer-session_truncate_kept,
}
use fuse_scrollfs.Shadow.Read.{
  archived, archived_geometry, block_geometry, found_reader, get_block, reader_of, through_layer,
}
use fuse_scrollfs.Shadow.State.{
  Shadow, blank_session, device_of, footer_geometry, geometry_of_session, geometry_or, newest,
  or_older, put_active, put_block, read_footer_geometry, start_geometry, truncate_blocks,
  with_session,
}
use fuse_scrollfs.Store.{PutBlock, StoredBlock, TruncateBlocks}
use mathlib.Core.Path.{subst}

blank_session-layer :
    (g : ℕ × ℕ) (idx : ℕ) → session_layer idx (some (blank_session g)) ≡ session_layer idx none
unfolding session_layer
blank_session-layer g idx = refl

module _ (crc32 : Bytes → ℕ) (default_chunk_size : ℕ) {W : Type 0} ⦃b : BlockIo W⦄ where
  found_reader-geometry :
      (r : Result (ArchiveReader W)) (g : ℕ × ℕ)
      → archived_geometry crc32 (found_reader crc32 r) ≡ some g
      → footer_geometry crc32 r ≡ some g
  found_reader-geometry (ok r) g e = e
  found_reader-geometry (err invalid_data) g e = absurd cc
  found_reader-geometry (err invalid_input) g e = absurd cc
  found_reader-geometry (err not_found) g e = absurd cc
  found_reader-geometry (err unexpected_eof) g e = absurd cc
  found_reader-geometry (err unsupported) g e = absurd cc
  found_reader-geometry (err would_block) g e = absurd cc
  found_reader-geometry (err other_error) g e = absurd cc
  found_reader-geometry (err io_failure) g e = absurd cc

  device-geometry :
      (o : Option W) (g : ℕ × ℕ)
      → archived_geometry crc32 (elim o as (λ _. Result (Option (ArchiveReader W))) [
        | none ↦ ok none
        | some w ↦ found_reader crc32 (from_file crc32 w)
      ])
        ≡ some g
      → geometry_or (0, default_chunk_size) (read_footer_geometry crc32 o) ≡ g
  unfolding read_footer_geometry
  device-geometry none g e = absurd cc
  device-geometry (some w) g e =
      ap (geometry_or (0, default_chunk_size)) (found_reader-geometry (from_file crc32 w) g e)

module _ (crc32 : Bytes → ℕ) (default_chunk_size : ℕ) {P W : Type 0} ⦃path : Keyed P⦄
    ⦃b : BlockIo W⦄ where
  -- The session that a write starts from: it reads as before and has the geometry of the file.
  record IsBase (ino : ℕ) (st : Shadow P W) (s : WriteSession) : Type 0 where
    pub layer : (idx : ℕ) → session_layer idx (some s) ≡ session_layer idx (find ino st.active)
    pub geometry : (g : ℕ × ℕ) → block_geometry crc32 st ino ≡ some g → geometry_of_session s ≡ g

  start_geometry-eq :
      (ino : ℕ) (st : Shadow P W) (g : ℕ × ℕ)
      → find ino st.active ≡ none
      → block_geometry crc32 st ino ≡ some g
      → start_geometry crc32 default_chunk_size ino st ≡ g
  unfolding start_geometry block_geometry reader_of
  start_geometry-eq ino st g n e = elim (Option-cases (find ino st.flushing)) [
    | inl h ↦
        let newest_none : newest ino st ≡ none = ap₂ or_older n h in
        let e' : archived_geometry crc32 (reader_of crc32 ino st) ≡ some g =
          sym (rw (block_geometry, newest_none) refl) ∙ e in
        rw (start_geometry, h) (device-geometry crc32 default_chunk_size (device_of ino st) g e')
    | inr (s, h) ↦
        let newest_some : newest ino st ≡ some s = ap₂ or_older n h in
        let e' : some (geometry_of_session s) ≡ some g =
          sym (rw (block_geometry, newest_some) refl) ∙ e in
        let r : geometry_of_session s ≡ g = cc in rw (start_geometry, h) r
  ]

  Based : (ino : ℕ) (f : WriteSession → WriteSession) (st : Shadow P W) → Type 0
  Based ino f st =
      (s : WriteSession) × IsBase ino st s
      × (with_session crc32 default_chunk_size ino f st ≡ (ok tt, put_active ino (f s) st))

  with_session-Based :
      (ino : ℕ) (p : P) (f : WriteSession → WriteSession) (st : Shadow P W)
      → path_of ino st.inodes ≡ some p
      → Based ino f st
  unfolding Based with_session block_geometry
  with_session-Based ino p f st e = elim (Option-cases (find ino st.active)) [
    | inr (s, h) ↦
        let newest_some : newest ino st ≡ some s = ap (λ o. or_older o (find ino st.flushing)) h in
        (
          s,
          record {
            layer = λ idx. ap (session_layer idx) (sym h);
            geometry = λ g q.
                let q' : some (geometry_of_session s) ≡ some g =
                  sym (rw (block_geometry, newest_some) refl) ∙ q in
                cc;
          },
          rw (with_session, h) refl,
        )
    | inl h ↦
        let s = blank_session (start_geometry crc32 default_chunk_size ino st) in
        (
          s,
          record {
            layer = λ idx.
                blank_session-layer (start_geometry crc32 default_chunk_size ino st) idx
                ∙ ap (session_layer idx) (sym h);
            geometry = λ g q. start_geometry-eq ino st g h q;
          },
          rw (with_session, h, e) refl,
        )
  ]

  -- The readers of a state with a new session.
  get_block-put_active :
      (ino idx : ℕ) (s : WriteSession) (st : Shadow P W)
      → get_block crc32 (put_active ino s st) ino idx
        ≡ through_both
            (some s)
            (find ino st.flushing)
            idx
            (reader_of crc32 ino st >>= archived crc32 idx)
  unfolding get_block reader_of device_of
  get_block-put_active ino idx s st =
      ap
        (λ o.
          through_both o (find ino st.flushing) idx (reader_of crc32 ino st >>= archived crc32 idx))
        (find-put_same ino s st.active)

  block_geometry-put_active :
      (ino : ℕ) (s : WriteSession) (st : Shadow P W)
      → block_geometry crc32 (put_active ino s st) ino ≡ some (geometry_of_session s)
  unfolding block_geometry
  block_geometry-put_active ino s st =
      let e : newest ino (put_active ino s st) ≡ some s =
        ap (λ o. or_older o (find ino st.flushing)) (find-put_same ino s st.active) in
      rw (block_geometry, e) refl

  same_layer :
      (ino j : ℕ) (st : Shadow P W) (s : WriteSession)
      → session_layer j (some s) ≡ session_layer j (find ino st.active)
      → through_both (some s) (find ino st.flushing) j (reader_of crc32 ino st >>= archived crc32 j)
        ≡ get_block crc32 st ino j
  unfolding get_block
  same_layer ino j st s e =
      ap
        (λ l. through_layer l (
          through_layer (session_layer j (find ino st.flushing))
            (reader_of crc32 ino st >>= archived crc32 j)))
        e

  -- On a file that has a path and a geometry, put_block of the shadow store does what the store
  -- interface promises: it does not fail, the block reads as written, all others read as before,
  -- and the size is the new one.
  pub put_block-PutBlock :
      (ino idx size new_size cs : ℕ) (p : P) (blk : StoredBlock) (st : Shadow P W)
      → path_of ino st.inodes ≡ some p
      → block_geometry crc32 st ino ≡ some (size, cs)
      → Ensures
          (λ _ st'. PutBlock (shadow_store crc32 default_chunk_size) ino idx blk new_size cs st st')
          (λ _. ⊥)
          (put_block crc32 default_chunk_size ino idx blk new_size st)
  unfolding put_block Based shadow_store session_put
  put_block-PutBlock ino idx size new_size cs p blk st e g =
      let f = session_put idx blk new_size in
      let (s, base, q) = with_session-Based ino p f st e in
      let below = reader_of crc32 ino st >>= archived crc32 idx in
      let chunk : s.chunk_size ≡ cs = ap (λ x. x.1) (base.geometry (size, cs) g) in
      subst
        (λ r.
          Ensures
            (λ _ st'.
              PutBlock (shadow_store crc32 default_chunk_size) ino idx blk new_size cs st st')
            (λ _. ⊥) r)
        (sym q)
        (record {
          here =
              get_block-put_active ino idx (f s) st
              ∙ ap
                  (λ l.
                    through_layer l
                      (through_layer (session_layer idx (find ino st.flushing)) below))
                  (layer-session_put_same idx new_size blk s);
          others = λ j ne.
              get_block-put_active ino j (f s) st
              ∙ same_layer ino j st (f s)
                  (layer-session_put_other idx j new_size blk s ne ∙ base.layer j);
          geometry = block_geometry-put_active ino (f s) st ∙ ap (λ c. some (new_size, c)) chunk;
        })

  -- On a file that has a path and a geometry, truncate_blocks of the shadow store does what the
  -- store interface promises: it does not fail, the blocks below the cut read as before, those
  -- from it on are gone, and the size is the new one.
  pub truncate_blocks-TruncateBlocks :
      (ino keep_from size new_size cs : ℕ) (p : P) (st : Shadow P W)
      → path_of ino st.inodes ≡ some p
      → block_geometry crc32 st ino ≡ some (size, cs)
      → Ensures
          (λ _ st'.
            TruncateBlocks (shadow_store crc32 default_chunk_size) ino keep_from new_size cs st st')
          (λ _. ⊥)
          (truncate_blocks crc32 default_chunk_size ino keep_from new_size st)
  unfolding truncate_blocks Based shadow_store session_truncate
  truncate_blocks-TruncateBlocks ino keep_from size new_size cs p st e g =
      let f = session_truncate keep_from new_size in
      let (s, base, q) = with_session-Based ino p f st e in
      let chunk : s.chunk_size ≡ cs = ap (λ x. x.1) (base.geometry (size, cs) g) in
      subst
        (λ r.
          Ensures
            (λ _ st'.
              TruncateBlocks (shadow_store crc32 default_chunk_size) ino keep_from new_size cs st
                st')
            (λ _. ⊥) r)
        (sym q)
        (record {
          kept = λ j l.
              get_block-put_active ino j (f s) st
              ∙ same_layer ino j st (f s)
                  (layer-session_truncate_kept keep_from new_size j s l ∙ base.layer j);
          dropped = λ j l.
              get_block-put_active ino j (f s) st
              ∙ ap
                  (λ x. through_layer x (
                    through_layer (session_layer j (find ino st.flushing))
                      (reader_of crc32 ino st >>= archived crc32 j)))
                  (layer-session_truncate_dropped keep_from new_size j s l);
          geometry = block_geometry-put_active ino (f s) st ∙ ap (λ c. some (new_size, c)) chunk;
        })
