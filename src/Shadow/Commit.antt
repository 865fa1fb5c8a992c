-- ===== src/Shadow/Commit.antt =====
-- The methods of crates/scrollz/src/store/shadow.rs that write an archive: the commit of a session,
-- and the tail journal and the seal, which go past the session.
use fuse_scrollfs.Archive.Updater.{
  Updater, append_journal, clear_head_cache, io_sync, reset_journal, set_block, set_head_cache,
  set_size, truncate,
}
use fuse_scrollfs.Archive.Updater.Commit.{commit, commit_journal}
use fuse_scrollfs.Archive.Updater.Open.{from_io}
use fuse_scrollfs.BlockCache.{keyed_nat, keyed_pair}
use fuse_scrollfs.BlockIo.{BlockIo}
use fuse_scrollfs.Bytes.{Bytes}
use fuse_scrollfs.Dict.{Dict, Keyed, erase, find, put}
use fuse_scrollfs.Prelude.{Option, [], if◌then◌else◌, ltb, none, some, ℕ, ◌∷◌}
use fuse_scrollfs.Prelude.Exec.{Exec, modify, pure, ◌>>=◌, ◌>>◌}
use fuse_scrollfs.Prelude.Result.{Result, err, not_found, ok}
use fuse_scrollfs.Shadow.Buffer.{
  HeadCacheUpdate, WriteSession, cleared, keep, merge_from_flushing, replaced,
}
use fuse_scrollfs.Shadow.Inodes.{path_of}
use fuse_scrollfs.Shadow.State.{Shadow}
use fuse_scrollfs.Store.{StoredBlock}

abbrev pub insert_block : ℕ × StoredBlock → Dict ℕ StoredBlock → Dict ℕ StoredBlock
insert_block e [] = e ∷ []
insert_block e (f ∷ rest) = if ltb f.0 e.0 then f ∷ insert_block e rest else e ∷ f ∷ rest

-- The dirty blocks by ascending index.
abbrev pub sorted_blocks : Dict ℕ StoredBlock → Dict ℕ StoredBlock
sorted_blocks [] = []
sorted_blocks (e ∷ rest) = insert_block e (sorted_blocks rest)

module _ {W : Type 0} where
  abbrev pub apply_truncate : Option ℕ → ℕ → Updater W → Updater W
  apply_truncate none size u = u
  apply_truncate (some keep_from) size u = truncate keep_from size u

  abbrev pub apply_head : HeadCacheUpdate → Updater W → Updater W
  apply_head keep u = u
  apply_head (replaced bytes verbatim rawlen) u = set_head_cache bytes verbatim rawlen u
  apply_head cleared u = clear_head_cache u

module _ (crc32 : Bytes → ℕ) {W : Type 0} ⦃b : BlockIo W⦄ where
  unfoldable pub set_blocks : Dict ℕ StoredBlock → ℕ → Exec (Updater W) (Unit {0})
  set_blocks [] size = pure tt
  set_blocks ((idx, blk) ∷ rest) size =
      set_block crc32 idx blk.bytes blk.stored_verbatim size >> set_blocks rest size

  -- What the commit will make visible.
  unfoldable pub stage_blocks : WriteSession → Exec (Updater W) (Unit {0})
  stage_blocks s =
      modify (apply_truncate s.truncate_to s.size)
      >> set_blocks (sorted_blocks s.dirty) s.size
      >> modify (apply_head s.head_cache)

  -- Up to the commit: an error until here leaves the session to be committed again.
  unfoldable pub commit_blocks : WriteSession → Exec (Updater W) (Unit {0})
  commit_blocks s = stage_blocks s >> commit crc32

  -- `Err` is an error before the commit; the inner result is that of the last barrier.
  unfoldable pub commit_with_updater : WriteSession → Exec (Updater W) (Result (Unit {0}))
  commit_with_updater s = commit_blocks s >>= λ _. λ u. let (r, u') = io_sync u in (ok r, u')

abbrev pub restored :
    ℕ → WriteSession → Option WriteSession → Dict ℕ WriteSession → Dict ℕ WriteSession
restored ino flushed none active = put ino flushed active
restored ino flushed (some s) active = put ino (merge_from_flushing s flushed) active

module _ {P W : Type 0} ⦃path : Keyed P⦄ where
  -- The session is moved where the readers still see it.
  unfoldable pub begin_commit : ℕ → WriteSession → Shadow P W → Shadow P W
  begin_commit ino s st = record st {
    active = erase ino st.active;
    flushing = put ino s st.flushing;
  }

  -- The end of a commit: an error before the commit point gives the session back.
  unfoldable pub finish_commit :
      ℕ → WriteSession → Result (Result (Unit {0})) → Exec (Shadow P W) (Unit {0})
  finish_commit ino flushed (ok r) st = (r, record st { flushing = erase ino st.flushing })
  finish_commit ino flushed (err e) st = (
    err e,
    record st {
      flushing = erase ino st.flushing;
      active = restored ino flushed (find ino st.active) st.active;
    },
  )

module _ (crc32 : Bytes → ℕ) {P W : Type 0} ⦃path : Keyed P⦄ ⦃b : BlockIo W⦄ where
  -- `ArchiveUpdater::open` and what is done with it; the writes stay, whatever the outcome.
  abbrev pub run_updater :
      {A : Type 0}
      → P
      → W
      → Exec (Updater W) A
      → Shadow P W
      → Result (Updater W)
      → Result A × Shadow P W
  run_updater p w m st (err e) = (err e, st)
  run_updater p w m st (ok u) = let (r, u') = m u in (r, record st { tree = put p u'.io st.tree })

  unfoldable pub on_archive : {A : Type 0} → ℕ → Exec (Updater W) A → Exec (Shadow P W) A
  on_archive ino m st = elim (path_of ino st.inodes) [
    | none ↦ (err not_found, st)
    | some p ↦ elim (find p st.tree) [
      | none ↦ (err not_found, st)
      | some w ↦ run_updater p w m st (from_io crc32 w)
    ]
  ]

  unfoldable pub append_tail : ℕ → Bytes → ℕ → Exec (Shadow P W) (Unit {0})
  append_tail ino delta new_size =
      on_archive ino
        (append_journal crc32 delta >> modify (set_size new_size) >> commit_journal crc32)

  unfoldable pub seal_tail_block : ℕ → ℕ → StoredBlock → ℕ → Exec (Shadow P W) (Unit {0})
  seal_tail_block ino idx blk new_size = on_archive ino (
      set_block crc32 idx blk.bytes blk.stored_verbatim new_size
      >> modify reset_journal
      >> commit crc32)

  -- Nothing to commit: only the barrier.
  unfoldable pub sync_file : ℕ → Exec (Shadow P W) (Unit {0})
  sync_file ino st = elim (path_of ino st.inodes) [
    | none ↦ (ok tt, st)
    | some p ↦ elim (find p st.tree) [
      | none ↦ (ok tt, st)
      | some w ↦ let (r, w') = b.sync w in (r, record st { tree = put p w' st.tree })
    ]
  ]

  unfoldable pub commit_session : ℕ → Exec (Shadow P W) (Unit {0})
  commit_session ino st = elim (find ino st.active) [
    | none ↦ sync_file ino st
    | some s ↦
        let (r, st') = on_archive ino (commit_with_updater crc32 s) (begin_commit ino s st) in
        finish_commit ino s r st'
  ]

  unfoldable pub fsync : ℕ → Exec (Shadow P W) (Unit {0})
  fsync ino = commit_session ino

  abbrev pub commit_sessions : Dict ℕ WriteSession → Exec (Shadow P W) (Unit {0})
  commit_sessions [] = pure tt
  commit_sessions ((ino, _) ∷ rest) = commit_session ino >> commit_sessions rest

  unfoldable pub sync_all : Exec (Shadow P W) (Unit {0})
  sync_all st = commit_sessions st.active st
