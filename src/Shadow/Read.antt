-- ===== src/Shadow/Read.antt =====
-- The reads of the store of crates/scrollz/src/store/shadow.rs: the newer session, the one that is
-- being committed, and the archive with its journal.
use fuse_scrollfs.Archive.{ChunkEntry, HeadCache, is_verbatim}
use fuse_scrollfs.Archive.Reader.{ArchiveReader, from_file, read_block, read_head_cache}
use fuse_scrollfs.BlockCache.{keyed_nat, keyed_pair}
use fuse_scrollfs.BlockIo.{BlockIo}
use fuse_scrollfs.BlockIo.FaultIo.{len}
use fuse_scrollfs.Bytes.{Bytes, checked_add}
use fuse_scrollfs.Dict.{Keyed, find}
use fuse_scrollfs.Prelude.{
  Bool, Option, false, if◌then◌else◌, leb, ltb, min, none, some, true, ℕ, ◌&&◌, ◌==◌,
}
use fuse_scrollfs.Prelude.Result.{Result, err, not_found, ok, ◌>>=◌}
use fuse_scrollfs.Shadow.Buffer.{Layer, cut_off, held, passes, session_layer}
use fuse_scrollfs.Shadow.State.{Shadow, device_of, geometry_of_session, newest}
use fuse_scrollfs.Store.{StoredBlock}

abbrev pub through_layer : Layer → Result (Option StoredBlock) → Result (Option StoredBlock)
through_layer (held blk) below = ok (some blk)
through_layer cut_off below = ok none
through_layer passes below = below

abbrev pub head_rawlen : Option HeadCache → ℕ
head_rawlen none = 0
head_rawlen (some hc) = hc.rawlen

abbrev pub ends_by : ℕ → Option ℕ → Bool
ends_by effective none = false
ends_by effective (some end) = leb end effective

module _ (crc32 : Bytes → ℕ) {W : Type 0} ⦃b : BlockIo W⦄ where
  abbrev pub found_reader : Result (ArchiveReader W) → Result (Option (ArchiveReader W))
  found_reader (ok r) = ok (some r)
  found_reader (err not_found) = ok none
  found_reader (err e) = err e

  -- Behind the last block stands the replayed journal.
  abbrev pub tail_of : ArchiveReader W → ℕ → Option Bytes → Option StoredBlock
  tail_of r idx none = none
  tail_of r idx (some raw) =
      if idx == r.footer.chunk_count
      then some (record { bytes = raw; stored_verbatim = true })
      else none

  abbrev pub block_or_tail :
      ArchiveReader W → ℕ → Option (Bytes × ChunkEntry) → Result (Option StoredBlock)
  block_or_tail r idx (some (bytes, e)) =
      ok (some (record { bytes = bytes; stored_verbatim = is_verbatim e }))
  block_or_tail r idx none = ok (tail_of r idx r.tail_journal)

  abbrev pub archived : ℕ → Option (ArchiveReader W) → Result (Option StoredBlock)
  archived idx none = ok none
  archived idx (some r) = read_block crc32 r idx >>= block_or_tail r idx

  abbrev pub archived_geometry : Result (Option (ArchiveReader W)) → Option (ℕ × ℕ)
  archived_geometry (err e) = none
  archived_geometry (ok none) = none
  archived_geometry (ok (some r)) = some (r.footer.uncompressed_size, r.footer.chunk_size)

  -- Only for a range that lies in the covered prefix and in the file.
  abbrev pub covered_head : ℕ → ℕ → Option (ArchiveReader W) → Option (Bytes × Bool)
  covered_head off len none = none
  covered_head off len (some r) =
      let effective = min (head_rawlen r.footer.head_cache) r.footer.uncompressed_size in
      if ltb 0 effective && ends_by effective (checked_add off len)
      then read_head_cache crc32 r
      else none

module _ (crc32 : Bytes → ℕ) {P W : Type 0} ⦃path : Keyed P⦄ ⦃b : BlockIo W⦄ where
  -- `cached_reader`, without its cache.
  unfoldable pub reader_of : ℕ → Shadow P W → Result (Option (ArchiveReader W))
  reader_of ino st = elim (device_of ino st) [
    | none ↦ ok none
    | some w ↦ found_reader crc32 (from_file crc32 w)
  ]

  unfoldable pub get_block : Shadow P W → ℕ → ℕ → Result (Option StoredBlock)
  get_block st ino idx = through_layer (session_layer idx (find ino st.active)) (
      through_layer (session_layer idx (find ino st.flushing))
        (reader_of ino st >>= archived crc32 idx))

  unfoldable pub block_geometry : Shadow P W → ℕ → Option (ℕ × ℕ)
  block_geometry st ino = elim (newest ino st) [
    | some s ↦ some (geometry_of_session s)
    | none ↦ archived_geometry crc32 (reader_of ino st)
  ]

  unfoldable pub read_head : Shadow P W → ℕ → ℕ → ℕ → Result (Option (Bytes × Bool))
  read_head st ino off len = elim (newest ino st) [
    | some _ ↦ ok none
    | none ↦ reader_of ino st >>= λ r. ok (covered_head crc32 off len r)
  ]
