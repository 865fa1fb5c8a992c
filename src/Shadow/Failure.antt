-- ===== src/Shadow/Failure.antt =====
-- A commit of crates/scrollz/src/store/shadow.rs that fails before its commit point gives the
-- session back, and readers see no difference.
use fuse_scrollfs.BlockCache.{keyed_nat, keyed_pair}
use fuse_scrollfs.BlockIo.{BlockIo}
use fuse_scrollfs.Bytes.{Bytes}
use fuse_scrollfs.Dict.{Dict, Keyed, find, find-erase_same, find-put_same, put}
use fuse_scrollfs.Prelude.{
  Option, Option-cases, ap, ap₂, inl, inr, none, refl, some, sym, ℕ, ◌∙◌, ◌≡◌,
}
use fuse_scrollfs.Prelude.Result.{ErrorKind, Result, err, ◌>>=◌}
use fuse_scrollfs.Shadow.Buffer.{
  Layer, WriteSession, cut_off, held, merge_from_flushing, over, passes, session_layer,
}
use fuse_scrollfs.Shadow.Commit.{finish_commit, restored}
use fuse_scrollfs.Shadow.Merge.{CutsAgree, layer-merge_from_flushing}
use fuse_scrollfs.Shadow.Read.{archived, block_geometry, get_block, reader_of, through_layer}
use fuse_scrollfs.Shadow.State.{Shadow, device_of, geometry_of_session, newest, or_older}
use fuse_scrollfs.Store.{StoredBlock}

-- The cuts of what was written since the commit began, against the cuts of what it took.
abbrev pub CutsBelow : Option WriteSession → WriteSession → Type 0
CutsBelow none flushed = Unit
CutsBelow (some s) flushed = CutsAgree s.truncate_to flushed.truncate_to

abbrev pub merged : WriteSession → Option WriteSession → WriteSession
merged flushed none = flushed
merged flushed (some s) = merge_from_flushing s flushed

abbrev pub through_both :
    Option WriteSession
    → Option WriteSession
    → ℕ
    → Result (Option StoredBlock)
    → Result (Option StoredBlock)
through_both newer older idx below =
    through_layer (session_layer idx newer) (through_layer (session_layer idx older) below)

restored-merged :
    (ino : ℕ) (flushed : WriteSession) (o : Option WriteSession) (active : Dict ℕ WriteSession)
    → restored ino flushed o active ≡ put ino (merged flushed o) active
restored-merged ino flushed none active = refl
restored-merged ino flushed (some s) active = refl

through-over :
    (l m : Layer) (below : Result (Option StoredBlock))
    → through_layer (over l m) below ≡ through_layer l (through_layer m below)
through-over (held b) m below = refl
through-over cut_off m below = refl
through-over passes m below = refl

through-merged :
    (o : Option WriteSession) (flushed : WriteSession) (idx : ℕ)
    (below : Result (Option StoredBlock))
    → CutsBelow o flushed
    → through_both (some (merged flushed o)) none idx below
      ≡ through_both o (some flushed) idx below
unfolding session_layer
through-merged none flushed idx below c = refl
through-merged (some s) flushed idx below c =
    ap (λ l. through_layer l below) (layer-merge_from_flushing idx s flushed c)
    ∙ through-over (session_layer idx (some s)) (session_layer idx (some flushed)) below

geometry-merged :
    (o : Option WriteSession) (flushed : WriteSession)
    → or_older (some (merged flushed o)) none ≡ some (merged flushed o)
geometry-merged o flushed = refl

merged-geometry :
    (o : Option WriteSession) (flushed s : WriteSession)
    → or_older o (some flushed) ≡ some s
    → geometry_of_session (merged flushed o) ≡ geometry_of_session s
unfolding merge_from_flushing
merged-geometry none flushed s e = let r : flushed ≡ s = cc in ap geometry_of_session r
merged-geometry (some t) flushed s e = let r : t ≡ s = cc in ap geometry_of_session r

module _ (crc32 : Bytes → ℕ) {P W : Type 0} ⦃path : Keyed P⦄ ⦃b : BlockIo W⦄ (ino : ℕ)
    (flushed : WriteSession) (e : ErrorKind) (st : Shadow P W)
    (f : find ino st.flushing ≡ some flushed) where
  after : Shadow P W
  after = (finish_commit ino flushed (err e) st).1

  active_after : find ino after.active ≡ some (merged flushed (find ino st.active))
  unfolding after finish_commit
  active_after =
      ap (find ino) (restored-merged ino flushed (find ino st.active) st.active)
      ∙ find-put_same ino (merged flushed (find ino st.active)) st.active

  flushing_after : find ino after.flushing ≡ none
  unfolding after finish_commit
  flushing_after = find-erase_same ino st.flushing

  pub get_block-finish_commit :
      CutsBelow (find ino st.active) flushed
      → (idx : ℕ)
      → get_block crc32 (finish_commit ino flushed (err e) st).1 ino idx
        ≡ get_block crc32 st ino idx
  unfolding get_block after finish_commit reader_of device_of
  get_block-finish_commit c idx =
      let below = reader_of crc32 ino st >>= archived crc32 idx in
      ap₂ (λ x y. through_both x y idx below) active_after flushing_after
      ∙ through-merged (find ino st.active) flushed idx below c
      ∙ ap (λ y. through_both (find ino st.active) y idx below) (sym f)

  block_geometry-some :
      (s : Shadow P W) (t : WriteSession)
      → newest ino s ≡ some t
      → block_geometry crc32 s ino ≡ some (geometry_of_session t)
  unfolding block_geometry
  block_geometry-some s t h = rw (block_geometry, h) refl

  newest_before : (t : WriteSession) × (newest ino st ≡ some t)
  newest_before = elim (Option-cases (find ino st.active)) [
    | inl n ↦ (flushed, ap (λ o. or_older o (find ino st.flushing)) n ∙ f)
    | inr (s, q) ↦ (s, ap (λ o. or_older o (find ino st.flushing)) q)
  ]

  block_geometry-finish_commit :
      block_geometry crc32 (finish_commit ino flushed (err e) st).1 ino
      ≡ block_geometry crc32 st ino
  unfolding after
  block_geometry-finish_commit =
      let (t, q) = newest_before in
      let q' : or_older (find ino st.active) (some flushed) ≡ some t =
        ap (or_older (find ino st.active)) (sym f) ∙ q in
      let m = merged flushed (find ino st.active) in
      block_geometry-some after m (ap (λ o. or_older o (find ino after.flushing)) active_after)
      ∙ ap (λ g. some g) (merged-geometry (find ino st.active) flushed t q')
      ∙ sym (block_geometry-some st t q)

  -- Where an inode has a session that is being committed, and what was written since, if
  -- anything, has not been cut off behind a place where that session was, a commit that fails
  -- before its commit point leaves every block of the inode and its size as readers saw them
  -- while it ran.
  pub finish_commit-reads :
      CutsBelow (find ino st.active) flushed
      → ((idx : ℕ)
          → get_block crc32 (finish_commit ino flushed (err e) st).1 ino idx
            ≡ get_block crc32 st ino idx)
        × (block_geometry crc32 (finish_commit ino flushed (err e) st).1 ino
            ≡ block_geometry crc32 st ino)
  finish_commit-reads c = (get_block-finish_commit c, block_geometry-finish_commit)
