-- ===== src/Archive/Crash/TruncateCommit.antt =====
-- `truncate` of crates/scrollz/src/archive/updater.rs, committed, and read after a crash.
use fuse_scrollfs.Archive.{ChunkEntry, HeadCache, IsCrc32}
use fuse_scrollfs.Archive.Crash.{OldOrNew, Opens}
use fuse_scrollfs.Archive.Crash.Commit.{Committable, next_archive}
use fuse_scrollfs.Archive.Crash.ReadBack.{
  ReadsBack, checked, commit-ReadsBack, read_block-checked, reader_on,
}
use fuse_scrollfs.Archive.Crash.Seen.{seen, seen_in, with_region}
use fuse_scrollfs.Archive.Crash.SetBlock.{Placed}
use fuse_scrollfs.Archive.Crash.Staging.{cached_at, staged}
use fuse_scrollfs.Archive.Crash.Truncate.{truncate-Blocks, truncate-index, truncate-place}
use fuse_scrollfs.Archive.Reader.{ActiveArchive, read_block}
use fuse_scrollfs.Archive.Updater.{Updater, rawlen_of, truncate}
use fuse_scrollfs.Archive.Updater.Commit.{commit}
use fuse_scrollfs.BlockIo.FaultIo.{FaultIo, apply_all, crash_with_mask, fault_block_io}
use fuse_scrollfs.Bytes.{Bytes}
use fuse_scrollfs.Prelude.{
  Bool, Bool-cases, Option, ap, ap₂, arith, false, get_elem?, get_elem?-take, if◌then◌else◌, inl,
  inr, leb, length, ltb, none, refl, some, sym, true, ℕ, ◌&&◌, ◌<◌, ◌∙◌, ◌≡◌, ◌≤◌, ◌⊎◌,
}
use fuse_scrollfs.Prelude.Exec.{Ensures, Ensures-mono}
use fuse_scrollfs.Prelude.Result.{ok}

with_region-cut :
    (dropped : Bool) (img : Bytes) (o : Option ChunkEntry)
    → with_region img (if dropped then none else o) ≡ (if dropped then none else with_region img o)
with_region-cut true img o = refl
with_region-cut false img o = refl

staged-truncate :
    (keep_from new_size : ℕ) (u : Updater FaultIo)
    → staged (truncate keep_from new_size u) ≡ staged u
staged-truncate keep_from new_size u =
    ap (λ d. apply_all d.durable d.dirty) (truncate-place keep_from new_size u).0

-- The blocks below the cut are found as before, and no other is.
pub seen-truncate :
    (keep_from new_size i : ℕ) (u : Updater FaultIo)
    → seen (truncate keep_from new_size u) i ≡ (if leb keep_from i then none else seen u i)
seen-truncate keep_from new_size i u =
    ap₂ (λ img index. seen_in img index i) (staged-truncate keep_from new_size u)
      (truncate-index keep_from new_size u)
    ∙ ap (with_region (staged u)) (get_elem?-take keep_from i u.index)
    ∙ with_region-cut (leb keep_from i) (staged u) (get_elem? u.index i)

-- A head cache that covers more than the new size is gone, also where the committed one is kept for
-- a commit of the journal; any other stays.
abbrev pub HeadAfter : ℕ → Updater FaultIo → Updater FaultIo → Type 0
HeadAfter new_size u v =
    ((new_size < rawlen_of u.head_cache u.committed_head_cache)
      × (v.head_cache ≡ none)
      × (v.committed_head_cache ≡ none))
    ⊎ ((rawlen_of u.head_cache u.committed_head_cache ≤ new_size)
        × (v.head_cache ≡ u.head_cache)
        × (v.committed_head_cache ≡ u.committed_head_cache))

truncate-HeadAfter :
    (keep_from new_size : ℕ) (u : Updater FaultIo)
    → HeadAfter new_size u (truncate keep_from new_size u)
unfolding truncate
truncate-HeadAfter keep_from new_size u =
    let r = rawlen_of u.head_cache u.committed_head_cache in
    elim (Bool-cases (ltb 0 r && ltb new_size r)) [
      | inl stale ↦ rw stale (inl (ground (arith, stale), refl, refl))
      | inr fresh ↦ rw fresh (inr (ground (arith, fresh), refl, refl))
    ]

truncate-index_dirty :
    (keep_from new_size : ℕ) (u : Updater FaultIo)
    → (truncate keep_from new_size u).index_dirty ≡ true
unfolding truncate
truncate-index_dirty keep_from new_size u =
    let r = rawlen_of u.head_cache u.committed_head_cache in
    elim (Bool-cases (ltb 0 r && ltb new_size r)) [
      | inl stale ↦ rw stale refl
      | inr fresh ↦ rw fresh refl
    ]

abbrev pub head_reach : Option HeadCache → ℕ
head_reach none = 0
head_reach (some hc) = hc.rawlen

head_reach-cached_at :
    (cursor n : ℕ) (h : Option (Bytes × Bool × ℕ)) (c : Option HeadCache)
    → rawlen_of h c ≤ n
    → head_reach (cached_at cursor h) ≤ n
head_reach-cached_at cursor n none c l = omega arith
head_reach-cached_at cursor n (some (bytes, verbatim, rawlen)) c l = l

HeadAfter-within :
    (cursor n : ℕ) (u v : Updater FaultIo)
    → HeadAfter n u v
    → head_reach (cached_at cursor v.head_cache) ≤ n
HeadAfter-within cursor n u v (inl (l, e, f)) =
    let q : head_reach (cached_at cursor v.head_cache) ≡ 0 =
      ap (λ h. head_reach (cached_at cursor h)) e in
    omega (arith, q)
HeadAfter-within cursor n u v (inr (l, e, f)) =
    let q : head_reach (cached_at cursor v.head_cache)
        ≡ head_reach (cached_at cursor u.head_cache) =
      ap (λ h. head_reach (cached_at cursor h)) e in
    omega (arith, q, head_reach-cached_at cursor n u.head_cache u.committed_head_cache l)

pub truncate-Placed :
    (crc32 : Bytes → ℕ) (reach : ℕ) (a : ActiveArchive) (chunk_size keep_from new_size : ℕ)
    (u : Updater FaultIo)
    → Placed crc32 reach a chunk_size u
    → Placed crc32 reach a chunk_size (truncate keep_from new_size u)
truncate-Placed crc32 reach a chunk_size keep_from new_size u p =
    let (io, cursor, _, _, _, chunk) = truncate-place keep_from new_size u in
    record {
      blocks = (truncate-Blocks crc32 reach a keep_from new_size u p.blocks).0;
      long =
          omega (arith, cursor, p.long, ap (λ b. length b) (staged-truncate keep_from new_size u));
      chunk = chunk ∙ p.chunk;
    }

module _ (crc32 : Bytes → ℕ) (u32 : IsCrc32 crc32) (reach : ℕ) (a : ActiveArchive)
    (u : Updater FaultIo) (p : Placed crc32 reach a u.chunk_size u) (keep_from new_size : ℕ) where
  checked-cut :
      (dropped : Bool) (o : Option (Bytes × ChunkEntry))
      → checked crc32 (if dropped then none else o) ≡ (if dropped then ok none else checked crc32 o)
  checked-cut true o = refl
  checked-cut false o = refl

  -- What a crash leaves of the truncated archive, and the updater `v` that was committed.
  pub record TruncatedTo (v w : Updater FaultIo) : Type 0 where
    pub opens : (mask : ℕ) → Opens crc32 w.io mask (next_archive crc32 v)
    pub reads :
        (mask i : ℕ)
        → read_block crc32 (reader_on (crash_with_mask w.io mask) (next_archive crc32 v)) i ≡ (
            if leb keep_from i
            then ok none
            else read_block crc32 (reader_on (staged u) (record a { index = u.index })) i)
    pub size : (next_archive crc32 v).sb.uncompressed_size ≡ new_size
    pub within : head_reach (next_archive crc32 v).sb.head_cache ≤ new_size
    pub head : HeadAfter new_size u v
    pub changed : v.index_dirty ≡ true

  committed-TruncatedTo :
      (w : Updater FaultIo)
      → ReadsBack crc32 u32 (truncate keep_from new_size u) w
      → TruncatedTo (truncate keep_from new_size u) w
  committed-TruncatedTo w k =
      let h = truncate-HeadAfter keep_from new_size u in
      let (_, _, _, _, size, _) = truncate-place keep_from new_size u in
      let v = truncate keep_from new_size u in
      record {
        opens = k.opens;
        reads = λ mask i.
            let before =
              read_block-checked crc32 (staged u) u.write_cursor (record a { index = u.index }) i
                p.blocks.entries p.long in
            k.read mask i
            ∙ ap (checked crc32) (seen-truncate keep_from new_size i u)
            ∙ checked-cut (leb keep_from i) (seen u i)
            ∙ ap (λ x. if leb keep_from i then ok none else x) (sym before);
        size = size;
        within = HeadAfter-within v.write_cursor new_size u v h;
        head = h;
        changed = truncate-index_dirty keep_from new_size u;
      }

  -- From an updater that tracks a committed archive and whose blocks lie between the header and
  -- the cursor, with the bytes before the cursor written, truncated to a number of blocks and a
  -- size whose updater has no journal and fields that fit their widths, on a device whose writes
  -- and barriers may fail but are not torn or softened: if commit succeeds, every crash leaves an
  -- archive that opens, in which the blocks below the cut read as they did before and no other is
  -- found, whose size is the new one, and whose head cache covers no more than that, since
  -- truncate drops a head cache, staged or committed, just where it covers more, and marks the
  -- index as changed; if it fails, every crash leaves the old archive or the new one.
  pub commit-truncate :
      Committable (truncate keep_from new_size u)
      → Ensures
          (λ _ w. TruncatedTo (truncate keep_from new_size u) w)
          (OldOrNew crc32 a (next_archive crc32 (truncate keep_from new_size u)))
          (commit crc32 (truncate keep_from new_size u))
  commit-truncate c =
      let v = truncate keep_from new_size u in
      let placed = truncate-Placed crc32 reach a u.chunk_size keep_from new_size u p in
      Ensures-mono (λ _ w. ReadsBack crc32 u32 v w) (λ _ w. TruncatedTo v w)
        (OldOrNew crc32 a (next_archive crc32 v)) (commit crc32 v)
        (λ _ w k. committed-TruncatedTo w k)
        (commit-ReadsBack crc32 u32 v reach a placed.blocks.tracks placed.long c)
