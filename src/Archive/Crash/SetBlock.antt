-- ===== src/Archive/Crash/SetBlock.antt =====
-- What `set_block` of crates/scrollz/src/archive/updater.rs makes of each block that a reader finds.
use fuse_scrollfs.Archive.{ChunkEntry}
use fuse_scrollfs.Archive.Crash.{Tracks}
use fuse_scrollfs.Archive.Crash.Blocks.{
  Blocks, Blocks-put, block_entry, put_entry_other, put_entry_same, zero_entry,
}
use fuse_scrollfs.Archive.Crash.Seen.{
  Becomes, Becomes-trans, IsBlock, SameRegions, seen, seen_in-same, with_region, zero_block,
}
use fuse_scrollfs.Archive.Crash.Staging.{Tracks-Unchanged, staged, staged-Wrote}
use fuse_scrollfs.Archive.Reader.{ActiveArchive}
use fuse_scrollfs.Archive.Updater.{Updater, fill_gap, put_entry, set_block}
use fuse_scrollfs.Archive.Updater.Steps.{append_bytes-bind}
use fuse_scrollfs.BlockCache.{keyed_nat}
use fuse_scrollfs.BlockIo.FaultIo.{FaultIo, apply, apply_all, fault_block_io}
use fuse_scrollfs.BlockIo.FaultIo.Apply.{length-apply, slice-apply_before, slice-apply_self}
use fuse_scrollfs.BlockIo.FaultIo.Crash.{Wrote}
use fuse_scrollfs.Bytes.{Bytes, slice}
use fuse_scrollfs.Dict.{eq-false_other}
use fuse_scrollfs.Prelude.{
  ==_refl, Bool-cases, Option, [], ap, arith, get_elem?, get_elem?-short, if◌then◌else◌, inl, inr,
  length, length-append, none, refl, replicate, some, suc, sym, zero, ℕ, ◌++◌, ◌+◌, ◌-◌, ◌∙◌, ◌∷◌,
  ◌≡◌, ◌≢◌, ◌≤◌,
}
use fuse_scrollfs.Prelude.Exec.{Ensures, Ensures-bind, Ensures-mono}
use fuse_scrollfs.Store.{StoredBlock}
use mathlib.Core.Path.{subst}

abbrev pub one_block : ℕ → StoredBlock → ℕ → Option StoredBlock
one_block k blk i = if keyed_nat.eq i k then some blk else none

module _ (crc32 : Bytes → ℕ) (reach : ℕ) (a : ActiveArchive) (chunk_size : ℕ) where
  -- An updater between two commits, all of whose bytes are written.
  pub record Placed (u : Updater FaultIo) : Type 0 where
    pub blocks : Blocks crc32 reach a u
    pub long : u.write_cursor ≤ length (staged u)
    pub chunk : u.chunk_size ≡ chunk_size

  pub record BlockPut (u : Updater FaultIo) (k : ℕ) (blk : StoredBlock) (v : Updater FaultIo)
      : Type 0 where
    pub placed : Placed v
    pub seen : (i : ℕ) → Becomes crc32 chunk_size (one_block k blk i) (seen u i) (seen v i)

  module _ (u v : Updater FaultIo) (k : ℕ) (blk : StoredBlock) (io : FaultIo) (p : Placed u)
      (at : k ≤ length u.index) (w : Wrote u.io u.write_cursor blk.bytes io) (vio : v.io ≡ io)
      (vc : v.write_cursor ≡ u.write_cursor + length blk.bytes) (vs : v.active_seq ≡ u.active_seq)
      (vo : v.inactive_off ≡ u.inactive_off) (vh : v.chunk_size ≡ u.chunk_size)
      (vi : v.index
        ≡ put_entry u.index k (block_entry crc32 reach a u blk.bytes blk.stored_verbatim)) where
    abbrev new_entry : ChunkEntry
    new_entry = block_entry crc32 reach a u blk.bytes blk.stored_verbatim

    staged_after : staged v ≡ apply (staged u) u.write_cursor blk.bytes
    staged_after =
        ap (λ d. apply_all d.durable d.dirty) vio ∙ staged-Wrote u u.write_cursor blk.bytes io w

    same_before : SameRegions u.write_cursor (staged u) (staged v)
    same_before off n s h =
        ap (slice off n) staged_after
        ∙ slice-apply_before (staged u) u.write_cursor blk.bytes off n h (omega (arith, h, p.long))

    seen_put : IsBlock crc32 blk (seen v k)
    seen_put = (
      new_entry,
      ap (with_region (staged v))
            (ap (λ index. get_elem? index k) vi ∙ put_entry_same u.index k new_entry at)
          ∙ ap (λ bytes. some (bytes, new_entry))
              (ap (slice u.write_cursor (length blk.bytes)) staged_after
                ∙ slice-apply_self (staged u) u.write_cursor blk.bytes),
      refl,
      refl,
    )

    seen_apart : (i : ℕ) → i ≢ k → seen v i ≡ seen u i
    seen_apart i n =
        ap (with_region (staged v))
          (ap (λ index. get_elem? index i) vi ∙ put_entry_other u.index k i new_entry n)
        ∙ seen_in-same u.write_cursor (staged u) (staged v) u.index i same_before p.blocks.entries

    pub put_block-BlockPut : BlockPut u k blk v
    put_block-BlockPut = record {
      placed = record {
        blocks =
            Blocks-put crc32 reach a u k blk.bytes new_entry io p.blocks w refl refl v vio vc vs vo
              vi;
        long = omega (
          arith,
          vc,
          ap (λ b. length b) staged_after,
          length-apply (staged u) u.write_cursor blk.bytes,
        );
        chunk = vh ∙ p.chunk;
      };
      seen = λ i. elim (Bool-cases (keyed_nat.eq i k)) [
        | inl same ↦
            rw same (
              subst (λ j. IsBlock crc32 blk (seen v j)) (sym (keyed_nat.eq_sound i k same))
                seen_put)
        | inr other ↦ rw other (inl (seen_apart i (λ q. eq-false_other i k other (sym q))))
      ];
    }

  -- The zero blocks of a gap.
  pub record Filled (u : Updater FaultIo) (n : ℕ) (v : Updater FaultIo) : Type 0 where
    pub placed : Placed v
    pub count : length v.index ≡ length u.index + n
    pub seen : (i : ℕ) → Becomes crc32 chunk_size none (seen u i) (seen v i)

  -- A block of zeros where there was none.
  Filled-BlockPut :
      (u v : Updater FaultIo)
      → BlockPut u (length u.index) (zero_block chunk_size) v
      → length v.index ≡ length u.index + 1
      → Filled u 1 v
  Filled-BlockPut u v p n = record {
    placed = p.placed;
    count = n;
    seen = λ i. elim (Bool-cases (keyed_nat.eq i (length u.index))) [
      | inl same ↦
          let q = keyed_nat.eq_sound i (length u.index) same in
          let h = rw same at (p.seen i) in
          inr (ap (with_region (staged u)) (get_elem?-short u.index i (omega (arith, q))), h)
      | inr other ↦ rw other at (p.seen i)
    ];
  }

  fill_gap-Filled :
      (n : ℕ) (u : Updater FaultIo)
      → Placed u
      → Ensures (λ _ v. Filled u n v) (λ v. Tracks crc32 v reach a) (fill_gap crc32 n u)
  unfolding fill_gap
  fill_gap-Filled zero u p = record { placed = p; count = omega arith; seen = λ i. inl refl }
  fill_gap-Filled (suc n) u p =
      let zeros : Bytes = replicate u.chunk_size 0 in
      let e = zero_entry crc32 reach a u in
      append_bytes-bind (λ _ v. Filled u (suc n) v) (λ v. Tracks crc32 v reach a) u zeros _
        p.blocks.tracks.honest
        (λ io w.
          let v : Updater FaultIo = record u {
            io = io;
            write_cursor = u.write_cursor + length zeros;
            index = u.index ++ e ∷ [];
          } in
          let put : BlockPut u (length u.index) (zero_block u.chunk_size) v =
            put_block-BlockPut u v (length u.index) (zero_block u.chunk_size) io p (omega arith) w
              refl refl refl refl refl (rw (==_refl (length u.index)) refl) in
          let f =
            Filled-BlockPut u v
              (subst (λ c. BlockPut u (length u.index) (zero_block c) v) p.chunk put)
              (length-append u.index (e ∷ [])) in
          Ensures-mono (λ _ x. Filled v n x) (λ _ x. Filled u (suc n) x)
            (λ x. Tracks crc32 x reach a) (fill_gap crc32 n v)
            (λ _ x g. record {
              placed = g.placed;
              count = omega (arith, f.count, g.count);
              seen = λ i. Becomes-trans crc32 chunk_size none _ _ _ (f.seen i) (g.seen i);
            })
            (fill_gap-Filled n v f.placed))
        (λ io c. Tracks-Unchanged crc32 u reach a io p.blocks.tracks c)

  -- What was seen of a block before the gap was filled and the block put.
  pub Becomes-put :
      (o : Option StoredBlock) (x y z : Option (Bytes × ChunkEntry))
      → Becomes crc32 chunk_size none x y
      → Becomes crc32 chunk_size o y z
      → Becomes crc32 chunk_size o x z
  Becomes-put none x y z h k = Becomes-trans crc32 chunk_size none x y z h k
  Becomes-put (some blk) x y z h k = k

  pub set_block-BlockPut :
      (u : Updater FaultIo) (idx : ℕ) (blk : StoredBlock) (new_size : ℕ)
      → Placed u
      → Ensures
          (λ _ v. BlockPut u idx blk v)
          (λ v. Tracks crc32 v reach a)
          (set_block crc32 idx blk.bytes blk.stored_verbatim new_size u)
  unfolding set_block
  set_block-BlockPut u idx blk new_size p =
      let Q : Unit {0} → Updater FaultIo → Type 0 = λ _ v. BlockPut u idx blk v in
      let E : Updater FaultIo → Type 0 = λ v. Tracks crc32 v reach a in
      let n = idx - length u.index in
      Ensures-bind (λ _ v. Filled u n v) Q E (fill_gap crc32 n u) _ (fill_gap-Filled n u p)
        (λ _ v f.
          append_bytes-bind Q E v blk.bytes _ f.placed.blocks.tracks.honest
            (λ io w.
              let put =
                put_block-BlockPut v _ idx blk io f.placed (omega (arith, f.count)) w refl refl refl
                  refl refl refl in
              record {
                placed = put.placed;
                seen = λ i. Becomes-put (one_block idx blk i) _ _ _ (f.seen i) (put.seen i);
              })
            (λ io c. Tracks-Unchanged crc32 v reach a io f.placed.blocks.tracks c))
