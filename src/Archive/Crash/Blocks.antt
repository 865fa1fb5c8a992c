-- ===== src/Archive/Crash/Blocks.antt =====
-- `set_block` of crates/scrollz/src/archive/updater.rs against what a crash may leave.
use fuse_scrollfs.Archive.{ChunkEntry, data_start, flag_verbatim}
use fuse_scrollfs.Archive.Crash.{Tracks}
use fuse_scrollfs.Archive.Crash.Staging.{
  Tracks-Unchanged, Tracks-Wrote, Tracks-fields, staged, staged-Wrote,
}
use fuse_scrollfs.Archive.Reader.{ActiveArchive}
use fuse_scrollfs.Archive.Recovery.{EntriesIn}
use fuse_scrollfs.Archive.Updater.{Updater, fill_gap, put_entry, set_block, verbatim_flags}
use fuse_scrollfs.Archive.Updater.Steps.{append_bytes-bind}
use fuse_scrollfs.BlockIo.FaultIo.{FaultIo, fault_block_io}
use fuse_scrollfs.BlockIo.FaultIo.Apply.{slice-apply_self}
use fuse_scrollfs.BlockIo.FaultIo.Crash.{Wrote}
use fuse_scrollfs.Bytes.{Bytes, slice}
use fuse_scrollfs.Prelude.{
  ==_refl, Bool, Bool-cases, List, [], ap, arith, get_elem?, get_elem?-append_at,
  get_elem?-append_left, get_elem?-append_other, get_elem?-set_other, get_elem?-set_same, inl, inr,
  length, length-append, refl, replicate, set, some, suc, sym, true, zero, ℕ, ◌++◌, ◌+◌, ◌-◌, ◌<◌,
  ◌==◌, ◌∙◌, ◌∷◌, ◌≡◌, ◌≢◌, ◌≤◌,
}
use fuse_scrollfs.Prelude.Exec.{Ensures, Ensures-bind, Ensures-mono}
use mathlib.Core.Path.{subst}

pub EntriesIn-mono :
    (m n : ℕ) (index : List ChunkEntry) → m ≤ n → EntriesIn m index → EntriesIn n index
EntriesIn-mono m n [] h i = i
EntriesIn-mono m n (e ∷ index) h i = (i.0, omega (arith, h, i.1), EntriesIn-mono m n index h i.2)

pub EntriesIn-snoc :
    (n : ℕ) (index : List ChunkEntry) (e : ChunkEntry)
    → EntriesIn n index
    → data_start ≤ e.offset
    → e.offset + e.clen ≤ n
    → EntriesIn n (index ++ e ∷ [])
EntriesIn-snoc n [] e i s h = (s, h, tt)
EntriesIn-snoc n (x ∷ index) e i s h = (i.0, i.1, EntriesIn-snoc n index e i.2 s h)

EntriesIn-set :
    (n : ℕ) (index : List ChunkEntry) (k : ℕ) (e : ChunkEntry)
    → EntriesIn n index
    → data_start ≤ e.offset
    → e.offset + e.clen ≤ n
    → EntriesIn n (set index k e)
EntriesIn-set n [] k e i s h = tt
EntriesIn-set n (x ∷ index) zero e i s h = (s, h, i.2)
EntriesIn-set n (x ∷ index) (suc k) e i s h = (i.0, i.1, EntriesIn-set n index k e i.2 s h)

put_entry-EntriesIn :
    (n : ℕ) (index : List ChunkEntry) (k : ℕ) (e : ChunkEntry)
    → EntriesIn n index
    → data_start ≤ e.offset
    → e.offset + e.clen ≤ n
    → EntriesIn n (put_entry index k e)
put_entry-EntriesIn n index k e i s h = elim (Bool-cases (k == length index)) [
  | inl at ↦ rw at (EntriesIn-snoc n index e i s h)
  | inr below ↦ rw below (EntriesIn-set n index k e i s h)
]

pub put_entry_same :
    (index : List ChunkEntry) (k : ℕ) (e : ChunkEntry)
    → k ≤ length index
    → get_elem? (put_entry index k e) k ≡ some e
put_entry_same index k e h = elim (Bool-cases (k == length index)) [
  | inl at ↦ rw at (get_elem?-append_at index e k (ground (arith, at)))
  | inr below ↦ rw below (get_elem?-set_same index k e (ground (arith, below)))
]

pub put_entry_other :
    (index : List ChunkEntry) (k i : ℕ) (e : ChunkEntry)
    → i ≢ k
    → get_elem? (put_entry index k e) i ≡ get_elem? index i
put_entry_other index k i e n = elim (Bool-cases (k == length index)) [
  | inl at ↦
      let q : k ≡ length index = ground (arith, at) in
      rw at (get_elem?-append_other index e i (λ r. n (r ∙ sym q)))
  | inr below ↦ rw below (get_elem?-set_other index k i e n)
]

module _ (crc32 : Bytes → ℕ) (reach : ℕ) (a : ActiveArchive) where
  -- The committed archive is safe, and every block lies between the header and the cursor.
  pub record Blocks (u : Updater FaultIo) : Type 0 where
    pub tracks : Tracks crc32 u reach a
    pub entries : EntriesIn u.write_cursor u.index

  -- `n` blocks were added behind the ones of `u`, which stay.
  pub record Filled (u : Updater FaultIo) (n : ℕ) (v : Updater FaultIo) : Type 0 where
    pub blocks : Blocks v
    pub count : length v.index ≡ length u.index + n
    pub kept : (k : ℕ) → k < length u.index → get_elem? v.index k ≡ get_elem? u.index k

  abbrev pub zero_entry : Updater FaultIo → ChunkEntry
  zero_entry u = record {
    offset = u.write_cursor;
    clen = length (replicate {A = ℕ} u.chunk_size 0);
    flags = flag_verbatim;
    block_crc = crc32 (replicate u.chunk_size 0);
  }

  -- One block behind the others.
  pub Blocks-put :
      (u : Updater FaultIo) (k : ℕ) (bytes : Bytes) (e : ChunkEntry) (io : FaultIo)
      → Blocks u
      → Wrote u.io u.write_cursor bytes io
      → e.offset ≡ u.write_cursor
      → e.clen ≡ length bytes
      → (v : Updater FaultIo) → v.io ≡ io
      → v.write_cursor ≡ u.write_cursor + length bytes
      → v.active_seq ≡ u.active_seq
      → v.inactive_off ≡ u.inactive_off
      → v.index ≡ put_entry u.index k e
      → Blocks v
  Blocks-put u k bytes e io b w eo ec v vio vc vs vo vi =
      let end = u.write_cursor + length bytes in
      record {
        tracks =
            Tracks-fields crc32 (record u { io = io; write_cursor = end }) v reach a vio
              (omega (arith, vc)) vs vo (Tracks-Wrote crc32 u reach a bytes io b.tracks w);
        entries =
            subst (λ i. EntriesIn v.write_cursor i) (sym vi)
              (put_entry-EntriesIn v.write_cursor u.index k e
                (EntriesIn-mono u.write_cursor v.write_cursor u.index (omega (arith, vc)) b.entries)
                (omega (arith, eo, b.tracks.cursor, b.tracks.holds.start))
                (omega (arith, eo, ec, vc)));
      }

  Filled-trans :
      (u v w : Updater FaultIo) (n : ℕ) → Filled u 1 v → Filled v n w → Filled u (suc n) w
  Filled-trans u v w n f g = record {
    blocks = g.blocks;
    count = omega (arith, f.count, g.count);
    kept = λ k h. g.kept k (omega (arith, f.count, h)) ∙ f.kept k h;
  }

  fill_gap-Filled :
      (n : ℕ) (u : Updater FaultIo)
      → Blocks u
      → Ensures (λ _ v. Filled u n v) (λ v. Tracks crc32 v reach a) (fill_gap crc32 n u)
  unfolding fill_gap
  fill_gap-Filled zero u b = record { blocks = b; count = omega arith; kept = λ k h. refl }
  fill_gap-Filled (suc n) u b =
      let zeros : Bytes = replicate u.chunk_size 0 in
      append_bytes-bind (λ _ v. Filled u (suc n) v) (λ v. Tracks crc32 v reach a) u zeros _
        b.tracks.honest
        (λ io w.
          let v : Updater FaultIo = record u {
            io = io;
            write_cursor = u.write_cursor + length zeros;
            index = u.index ++ zero_entry u ∷ [];
          } in
          let e : v.index ≡ put_entry u.index (length u.index) (zero_entry u) =
            rw (==_refl (length u.index)) refl in
          let f : Filled u 1 v = record {
            blocks =
                Blocks-put u (length u.index) zeros (zero_entry u) io b w refl refl v refl refl refl
                  refl e;
            count = length-append u.index (zero_entry u ∷ []);
            kept = λ k h. get_elem?-append_left u.index (zero_entry u ∷ []) k h;
          } in
          Ensures-mono (λ _ v'. Filled v n v') (λ _ v'. Filled u (suc n) v')
            (λ v'. Tracks crc32 v' reach a) (fill_gap crc32 n v)
            (λ _ v' g. Filled-trans u v v' n f g) (fill_gap-Filled n v f.blocks))
        (λ io c. Tracks-Unchanged crc32 u reach a io b.tracks c)

  -- Block `idx` holds the stored bytes, the blocks of `u` but it are what they were, and the gap
  -- between them is filled.
  pub record BlockSet (u : Updater FaultIo) (idx : ℕ) (bytes : Bytes) (verbatim : Bool)
      (v : Updater FaultIo) : Type 0 where
    pub blocks : Blocks v
    pub entry : ChunkEntry
    pub found : get_elem? v.index idx ≡ some entry
    pub stored : slice entry.offset entry.clen (staged v) ≡ bytes
    pub block_crc : entry.block_crc ≡ crc32 bytes
    pub flags : entry.flags ≡ verbatim_flags verbatim
    pub kept : (k : ℕ) → k < length u.index → k ≢ idx → get_elem? v.index k ≡ get_elem? u.index k

  abbrev pub block_entry : Updater FaultIo → Bytes → Bool → ChunkEntry
  block_entry u bytes verbatim = record {
    offset = u.write_cursor;
    clen = length bytes;
    flags = verbatim_flags verbatim;
    block_crc = crc32 bytes;
  }

  -- The block itself, once there is no gap before it.
  put_block :
      (u u' : Updater FaultIo) (idx : ℕ) (bytes : Bytes) (verbatim : Bool) (new_size : ℕ)
      (io : FaultIo)
      → Filled u (idx - length u.index) u'
      → Wrote u'.io u'.write_cursor bytes io
      → BlockSet u idx bytes verbatim (record u' {
        io = io;
        write_cursor = u'.write_cursor + length bytes;
        index = put_entry u'.index idx (block_entry u' bytes verbatim);
        uncompressed_size = new_size;
        index_dirty = true;
      })
  put_block u u' idx bytes verbatim new_size io f w =
      let e = block_entry u' bytes verbatim in
      record {
        blocks = Blocks-put u' idx bytes e io f.blocks w refl refl _ refl refl refl refl refl;
        entry = e;
        found = put_entry_same u'.index idx e (omega (arith, f.count));
        stored =
            ap (slice u'.write_cursor (length bytes)) (staged-Wrote u' u'.write_cursor bytes io w)
            ∙ slice-apply_self (staged u') u'.write_cursor bytes;
        block_crc = refl;
        flags = refl;
        kept = λ k h n. put_entry_other u'.index idx k e n ∙ f.kept k h;
      }

  -- From an updater that tracks a committed archive and whose blocks lie between the header and
  -- the cursor, on a device whose writes may fail but are not torn: on success set_block leaves
  -- the stored bytes, their checksum and flag under the block index, keeps every other block of
  -- the index and keeps the committed archive safe; on an error the committed archive is safe
  -- too.
  pub set_block-BlockSet :
      (u : Updater FaultIo) (idx : ℕ) (bytes : Bytes) (verbatim : Bool) (new_size : ℕ)
      → Blocks u
      → Ensures
          (λ _ v. BlockSet u idx bytes verbatim v)
          (λ v. Tracks crc32 v reach a)
          (set_block crc32 idx bytes verbatim new_size u)
  unfolding set_block
  set_block-BlockSet u idx bytes verbatim new_size b =
      let Q : Unit {0} → Updater FaultIo → Type 0 = λ _ v. BlockSet u idx bytes verbatim v in
      let E : Updater FaultIo → Type 0 = λ v. Tracks crc32 v reach a in
      let n = idx - length u.index in
      Ensures-bind (λ _ v. Filled u n v) Q E (fill_gap crc32 n u) _ (fill_gap-Filled n u b)
        (λ _ v f.
          append_bytes-bind Q E v bytes _ f.blocks.tracks.honest
            (λ io w. put_block u v idx bytes verbatim new_size io f w)
            (λ io c. Tracks-Unchanged crc32 v reach a io f.blocks.tracks c))
