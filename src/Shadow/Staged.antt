-- ===== src/Shadow/Staged.antt =====
-- What the commit of crates/scrollz/src/store/shadow.rs stages in the updater: each block of the
-- archive under the session.
use fuse_scrollfs.Archive.{ChunkEntry, HeadCache}
use fuse_scrollfs.Archive.Crash.{Tracks}
use fuse_scrollfs.Archive.Crash.Seen.{Becomes, Becomes-trans, seen}
use fuse_scrollfs.Archive.Crash.SetBlock.{
  Becomes-put, BlockPut, Placed, one_block, set_block-BlockPut,
}
use fuse_scrollfs.Archive.Crash.Staging.{Tracks-fields}
use fuse_scrollfs.Archive.Crash.TruncateCommit.{seen-truncate, truncate-Placed}
use fuse_scrollfs.Archive.Reader.{ActiveArchive}
use fuse_scrollfs.Archive.Updater.{Updater, clear_head_cache, set_block, set_head_cache}
use fuse_scrollfs.BlockCache.{keyed_nat, keyed_pair}
use fuse_scrollfs.BlockIo.FaultIo.{FaultIo, fault_block_io}
use fuse_scrollfs.Bytes.{Bytes}
use fuse_scrollfs.Dict.{Dict, Distinct, find}
use fuse_scrollfs.Prelude.{
  Bool, Bool-cases, Option, [], ap, arith, if◌then◌else◌, inl, inr, none, refl, some, sym, ℕ, ◌∙◌,
  ◌∷◌, ◌≡◌,
}
use fuse_scrollfs.Prelude.Exec.{Ensures, Ensures-bind, Ensures-mono}
use fuse_scrollfs.Shadow.Buffer.{HeadCacheUpdate, WriteSession, cleared, is_cut, keep, replaced}
use fuse_scrollfs.Shadow.Commit.{
  apply_head, apply_truncate, set_blocks, sorted_blocks, stage_blocks,
}
use fuse_scrollfs.Shadow.Sorted.{find-sorted_blocks, sorted_blocks-Distinct}
use fuse_scrollfs.Store.{StoredBlock}
use mathlib.Core.Path.{subst}

-- A block that the session cuts off is not found.
abbrev pub uncut : Option ℕ → ℕ → Option (Bytes × ChunkEntry) → Option (Bytes × ChunkEntry)
uncut keep_from i x = if is_cut keep_from i then none else x

module _ (crc32 : Bytes → ℕ) (reach : ℕ) (a : ActiveArchive) (chunk_size : ℕ) where
  -- The updater after the blocks of a list, and what became of each block.
  pub record Written (d : Dict ℕ StoredBlock) (u v : Updater FaultIo) : Type 0 where
    pub placed : Placed crc32 reach a chunk_size v
    pub becomes : (i : ℕ) → Becomes crc32 chunk_size (find i d) (seen u i) (seen v i)

  -- The first block and the others.
  Becomes-cons :
      (idx i : ℕ) (blk : StoredBlock) (d : Dict ℕ StoredBlock) (x y z : Option (Bytes × ChunkEntry))
      → find idx d ≡ none
      → Becomes crc32 chunk_size (one_block idx blk i) x y
      → Becomes crc32 chunk_size (find i d) y z
      → Becomes crc32 chunk_size (find i ((idx, blk) ∷ d)) x z
  Becomes-cons idx i blk d x y z n h k = elim (Bool-cases (keyed_nat.eq i idx)) [
    | inl same ↦
        let q = keyed_nat.eq_sound i idx same in
        let m : find i d ≡ none = ap (λ j. find j d) q ∙ n in
        rw same (
          Becomes-trans crc32 chunk_size (some blk) x y z (rw same at h)
            (subst (λ o. Becomes crc32 chunk_size o y z) m k))
    | inr other ↦ rw other (Becomes-put crc32 reach a chunk_size (find i d) x y z (rw other at h) k)
  ]

  set_blocks-Written :
      (d : Dict ℕ StoredBlock) (size : ℕ) (u : Updater FaultIo)
      → Distinct d
      → Placed crc32 reach a chunk_size u
      → Ensures (λ _ v. Written d u v) (λ v. Tracks crc32 v reach a) (set_blocks crc32 d size u)
  unfolding set_blocks
  set_blocks-Written [] size u h p = record { placed = p; becomes = λ i. inl refl }
  set_blocks-Written ((idx, blk) ∷ d) size u h p =
      Ensures-bind (λ _ v. BlockPut crc32 reach a chunk_size u idx blk v)
        (λ _ v. Written ((idx, blk) ∷ d) u v) (λ v. Tracks crc32 v reach a)
        (set_block crc32 idx blk.bytes blk.stored_verbatim size u) _
        (set_block-BlockPut crc32 reach a chunk_size u idx blk size p)
        (λ _ v f.
          Ensures-mono (λ _ w. Written d v w) (λ _ w. Written ((idx, blk) ∷ d) u w)
            (λ w. Tracks crc32 w reach a) (set_blocks crc32 d size v)
            (λ _ w g. record {
              placed = g.placed;
              becomes = λ i. Becomes-cons idx i blk d _ _ _ h.0 (f.seen i) (g.becomes i);
            })
            (set_blocks-Written d size v h.1 f.placed))

  pub record Cut (keep_from : Option ℕ) (u v : Updater FaultIo) : Type 0 where
    pub placed : Placed crc32 reach a chunk_size v
    pub becomes : (i : ℕ) → seen v i ≡ uncut keep_from i (seen u i)

  apply_truncate-Cut :
      (keep_from : Option ℕ) (size : ℕ) (u : Updater FaultIo)
      → Placed crc32 reach a chunk_size u
      → Cut keep_from u (apply_truncate keep_from size u)
  apply_truncate-Cut none size u p = record { placed = p; becomes = λ i. refl }
  apply_truncate-Cut (some keep_from) size u p = record {
    placed = truncate-Placed crc32 reach a chunk_size keep_from size u p;
    becomes = λ i. seen-truncate keep_from size i u;
  }

  -- The head cache is not among the blocks.
  head_free :
      (u : Updater FaultIo) (h : Option (Bytes × Bool × ℕ)) (c : Option HeadCache)
      → Placed crc32 reach a chunk_size u
      → Placed crc32 reach a chunk_size (record u { head_cache = h; committed_head_cache = c })
  head_free u h c p = record {
    blocks = record {
      tracks =
          Tracks-fields crc32 u (record u { head_cache = h; committed_head_cache = c }) reach a refl
            (omega arith) refl refl p.blocks.tracks;
      entries = p.blocks.entries;
    };
    long = p.long;
    chunk = p.chunk;
  }

  apply_head-Placed :
      (h : HeadCacheUpdate) (u : Updater FaultIo)
      → Placed crc32 reach a chunk_size u
      → Placed crc32 reach a chunk_size (apply_head h u)
  unfolding set_head_cache clear_head_cache
  apply_head-Placed keep u p = p
  apply_head-Placed (replaced bytes verbatim rawlen) u p = head_free u _ _ p
  apply_head-Placed cleared u p = head_free u _ _ p

  apply_head-seen :
      (h : HeadCacheUpdate) (u : Updater FaultIo) (i : ℕ) → seen (apply_head h u) i ≡ seen u i
  unfolding set_head_cache clear_head_cache
  apply_head-seen keep u i = refl
  apply_head-seen (replaced bytes verbatim rawlen) u i = refl
  apply_head-seen cleared u i = refl

  -- The updater that the commit makes visible.
  pub record StagedBy (s : WriteSession) (u v : Updater FaultIo) : Type 0 where
    pub placed : Placed crc32 reach a chunk_size v
    pub becomes :
        (i : ℕ)
        → Becomes crc32 chunk_size (find i s.dirty) (uncut s.truncate_to i (seen u i)) (seen v i)

  apply_head-StagedBy :
      (s : WriteSession) (u u1 v : Updater FaultIo)
      → Cut s.truncate_to u u1
      → Written (sorted_blocks s.dirty) u1 v
      → StagedBy s u (apply_head s.head_cache v)
  apply_head-StagedBy s u u1 v c w = record {
    placed = apply_head-Placed s.head_cache v w.placed;
    becomes = λ i.
        let k : Becomes crc32 chunk_size (find i s.dirty) (seen u1 i) (seen v i) =
          subst (λ o. Becomes crc32 chunk_size o (seen u1 i) (seen v i))
            (find-sorted_blocks i s.dirty) (w.becomes i) in
        let k' : Becomes crc32 chunk_size (find i s.dirty) (uncut s.truncate_to i (seen u i))
            (seen v i) =
          subst (λ x. Becomes crc32 chunk_size (find i s.dirty) x (seen v i)) (c.becomes i) k in
        subst (λ y. Becomes crc32 chunk_size (find i s.dirty) (uncut s.truncate_to i (seen u i)) y)
          (sym (apply_head-seen s.head_cache v i)) k';
  }

  pub stage_blocks-StagedBy :
      (s : WriteSession) (u : Updater FaultIo)
      → Distinct s.dirty
      → Placed crc32 reach a chunk_size u
      → Ensures (λ _ v. StagedBy s u v) (λ v. Tracks crc32 v reach a) (stage_blocks crc32 s u)
  unfolding stage_blocks
  stage_blocks-StagedBy s u d p =
      let u1 = apply_truncate s.truncate_to s.size u in
      let c = apply_truncate-Cut s.truncate_to s.size u p in
      let blocks = sorted_blocks s.dirty in
      Ensures-bind (λ _ v. Written blocks u1 v) (λ _ v. StagedBy s u v)
        (λ v. Tracks crc32 v reach a) (set_blocks crc32 blocks s.size u1) _
        (set_blocks-Written blocks s.size u1 (sorted_blocks-Distinct s.dirty d) c.placed)
        (λ _ v w. apply_head-StagedBy s u u1 v c w)
