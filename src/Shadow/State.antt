-- ===== src/Shadow/State.antt =====
-- The store of crates/scrollz/src/store/shadow.rs and its methods on the blocks of a file. The
-- directory tree is a finite map from paths to the devices that hold the archives. The cache of
-- opened readers is left out: every method that changes an archive drops its entry.
use fuse_scrollfs.Archive.Reader.{ArchiveReader, from_file}
use fuse_scrollfs.BlockCache.{keyed_nat, keyed_pair}
use fuse_scrollfs.BlockIo.{BlockIo}
use fuse_scrollfs.Bytes.{Bytes}
use fuse_scrollfs.Dict.{Dict, Keyed, find, put}
use fuse_scrollfs.Prelude.{Bool, Option, [], none, some, ℕ}
use fuse_scrollfs.Prelude.Exec.{Exec}
use fuse_scrollfs.Prelude.Result.{Result, err, not_found, ok}
use fuse_scrollfs.Shadow.Buffer.{WriteSession, keep, session_head, session_put, session_truncate}
use fuse_scrollfs.Shadow.Inodes.{InodeMap, path_of}
use fuse_scrollfs.Store.{StoredBlock}

pub record Shadow (P W : Type 0) : Type 0 where
  pub inodes : InodeMap P
  pub tree : Dict P W
  pub active : Dict ℕ WriteSession
  pub flushing : Dict ℕ WriteSession

abbrev pub geometry_of_session : WriteSession → ℕ × ℕ
geometry_of_session s = (s.size, s.chunk_size)

-- `active.get(&ino).or_else(|| flushing.get(&ino))`.
abbrev pub or_older : Option WriteSession → Option WriteSession → Option WriteSession
or_older (some s) older = some s
or_older none older = older

-- A session that says nothing, with the geometry of what is below it.
abbrev pub blank_session : ℕ × ℕ → WriteSession
blank_session geometry = record {
  dirty = [];
  size = geometry.0;
  chunk_size = geometry.1;
  truncate_to = none;
  head_cache = keep;
}

module _ {P W : Type 0} ⦃path : Keyed P⦄ where
  abbrev pub newest : ℕ → Shadow P W → Option WriteSession
  newest ino st = or_older (find ino st.active) (find ino st.flushing)

  -- `abs_of_ino`, and the archive that stands there.
  unfoldable pub device_of : ℕ → Shadow P W → Option W
  device_of ino st = elim (path_of ino st.inodes) [ none ↦ none | some p ↦ find p st.tree ]

  abbrev pub put_active : ℕ → WriteSession → Shadow P W → Shadow P W
  put_active ino s st = record st { active = put ino s st.active }

abbrev pub geometry_or : ℕ × ℕ → Option (ℕ × ℕ) → ℕ × ℕ
geometry_or default none = default
geometry_or default (some g) = g

module _ (crc32 : Bytes → ℕ) {W : Type 0} ⦃b : BlockIo W⦄ where
  abbrev pub footer_geometry : Result (ArchiveReader W) → Option (ℕ × ℕ)
  footer_geometry (err e) = none
  footer_geometry (ok r) = some (r.footer.uncompressed_size, r.footer.chunk_size)

  unfoldable pub read_footer_geometry : Option W → Option (ℕ × ℕ)
  read_footer_geometry none = none
  read_footer_geometry (some w) = footer_geometry (from_file crc32 w)

module _ (crc32 : Bytes → ℕ) (default_chunk_size : ℕ) {P W : Type 0} ⦃path : Keyed P⦄
    ⦃b : BlockIo W⦄ where
  -- The geometry that a new session starts from.
  unfoldable pub start_geometry : ℕ → Shadow P W → ℕ × ℕ
  start_geometry ino st = elim (find ino st.flushing) [
    | some s ↦ geometry_of_session s
    | none ↦ geometry_or (0, default_chunk_size) (read_footer_geometry crc32 (device_of ino st))
  ]

  unfoldable pub with_session : ℕ → (WriteSession → WriteSession) → Exec (Shadow P W) (Unit {0})
  with_session ino f st = elim (find ino st.active) [
    | some s ↦ (ok tt, put_active ino (f s) st)
    | none ↦ elim (path_of ino st.inodes) [
      | none ↦ (err not_found, st)
      | some _ ↦ (ok tt, put_active ino (f (blank_session (start_geometry ino st))) st)
    ]
  ]

  unfoldable pub put_block : ℕ → ℕ → StoredBlock → ℕ → Exec (Shadow P W) (Unit {0})
  put_block ino idx blk new_size = with_session ino (session_put idx blk new_size)

  unfoldable pub truncate_blocks : ℕ → ℕ → ℕ → Exec (Shadow P W) (Unit {0})
  truncate_blocks ino keep_from new_size = with_session ino (session_truncate keep_from new_size)

  unfoldable pub set_head_cache : ℕ → Bytes → Bool → ℕ → Exec (Shadow P W) (Unit {0})
  set_head_cache ino stored_bytes verbatim rawlen =
      with_session ino (session_head stored_bytes verbatim rawlen)
