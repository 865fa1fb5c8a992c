-- ===== src/Archive/Crash/Truncate.antt =====
-- `truncate` of crates/scrollz/src/archive/updater.rs.
use fuse_scrollfs.Archive.{ChunkEntry}
use fuse_scrollfs.Archive.Crash.Blocks.{Blocks, EntriesIn-mono}
use fuse_scrollfs.Archive.Crash.Staging.{Tracks-fields}
use fuse_scrollfs.Archive.Reader.{ActiveArchive}
use fuse_scrollfs.Archive.Recovery.{EntriesIn}
use fuse_scrollfs.Archive.Updater.{Updater, rawlen_of, truncate}
use fuse_scrollfs.BlockIo.FaultIo.{FaultIo, fault_block_io}
use fuse_scrollfs.Bytes.{Bytes}
use fuse_scrollfs.Prelude.{
  Bool-cases, List, [], arith, if◌then◌else◌, inl, inr, length, ltb, refl, suc, sym, take, take_all,
  zero, ℕ, ◌&&◌, ◌∷◌, ◌≡◌,
}
use fuse_scrollfs.Rmw.Cut.{cut}
use mathlib.Core.Path.{subst}

EntriesIn-take :
    (n k : ℕ) (index : List ChunkEntry) → EntriesIn n index → EntriesIn n (take k index)
EntriesIn-take n zero index i = tt
EntriesIn-take n (suc k) [] i = tt
EntriesIn-take n (suc k) (e ∷ index) i = (i.0, i.1, EntriesIn-take n k index i.2)

kept_index :
    (k : ℕ) (index : List ChunkEntry)
    → (if ltb k (length index) then take k index else index) ≡ take k index
kept_index k index = elim (Bool-cases (ltb k (length index))) [
  | inl cut ↦ rw cut refl
  | inr all ↦ rw all (sym (take_all k index (ground (arith, all))))
]

pub truncate-index :
    (keep_from new_size : ℕ) (u : Updater FaultIo)
    → (truncate keep_from new_size u).index ≡ take keep_from u.index
unfolding truncate
truncate-index keep_from new_size u =
    let r = rawlen_of u.head_cache u.committed_head_cache in
    elim (Bool-cases (ltb 0 r && ltb new_size r)) [
      | inl stale ↦ rw stale (kept_index keep_from u.index)
      | inr fresh ↦ rw fresh (kept_index keep_from u.index)
    ]

pub truncate-place :
    (keep_from new_size : ℕ) (u : Updater FaultIo)
    → let v = truncate keep_from new_size u in
      (v.io ≡ u.io)
      × (v.write_cursor ≡ u.write_cursor)
      × (v.active_seq ≡ u.active_seq)
      × (v.inactive_off ≡ u.inactive_off)
      × (v.uncompressed_size ≡ new_size)
      × (v.chunk_size ≡ u.chunk_size)
unfolding truncate
truncate-place keep_from new_size u =
    let r = rawlen_of u.head_cache u.committed_head_cache in
    elim (Bool-cases (ltb 0 r && ltb new_size r)) [
      | inl stale ↦ rw stale (refl, refl, refl, refl, refl, refl)
      | inr fresh ↦ rw fresh (refl, refl, refl, refl, refl, refl)
    ]

module _ (crc32 : Bytes → ℕ) (reach : ℕ) (a : ActiveArchive) where
  -- From an updater that tracks a committed archive and whose blocks lie between the header and
  -- the cursor, truncate keeps both, leaves the first keep_from blocks of the index and no other,
  -- and sets the size.
  pub truncate-Blocks :
      (keep_from new_size : ℕ) (u : Updater FaultIo)
      → Blocks crc32 reach a u
      → let v = truncate keep_from new_size u in
        Blocks crc32 reach a v
        × (v.index ≡ take keep_from u.index)
        × (v.uncompressed_size ≡ new_size)
  truncate-Blocks keep_from new_size u b =
      let v = truncate keep_from new_size u in
      let (io, cursor, seq, off, size, _) = truncate-place keep_from new_size u in
      let e = truncate-index keep_from new_size u in
      (
        record {
          tracks = Tracks-fields crc32 u v reach a io (omega (arith, cursor)) seq off b.tracks;
          entries =
              subst (λ i. EntriesIn v.write_cursor i) (sym e)
                (EntriesIn-mono u.write_cursor v.write_cursor (take keep_from u.index)
                  (omega (arith, cursor))
                  (EntriesIn-take u.write_cursor keep_from u.index b.entries));
        },
        e,
        size,
      )
