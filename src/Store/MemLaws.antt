-- ===== src/Store/MemLaws.antt =====
-- The backend in memory (store/tests_support.rs) against the contract of the trait.
use fuse_scrollfs.BlockCache.{keyed_nat, keyed_pair}
use fuse_scrollfs.Dict.{Dict, eq_other, find, find-put_other, find-put_same, put}
use fuse_scrollfs.Prelude.{
  Bool-cases, Option, [], ap, arith, false, inl, inr, ltb, none, refl, some, true, ℕ, ◌<◌, ◌∷◌, ◌≡◌,
  ◌≢◌, ◌≤◌,
}
use fuse_scrollfs.Prelude.Exec.{Ensures}
use fuse_scrollfs.Prelude.Result.{Result, err, not_found, ok}
use fuse_scrollfs.Store.{IsLawful, PutBlock, StoredBlock, TruncateBlocks}
use fuse_scrollfs.Store.Mem.{
  MemStore, Node, geometry_of, mem_put_block, mem_store, mem_truncate_blocks, retain_below,
  update_node,
}

find-retain_kept :
    (keep j : ℕ) (d : Dict ℕ StoredBlock) → j < keep → find j (retain_below keep d) ≡ find j d
find-retain_kept keep j [] l = refl
find-retain_kept keep j ((idx, blk) ∷ rest) l = elim (Bool-cases (ltb idx keep)) [
  | inl below ↦ rw (below, find-retain_kept keep j rest l) refl
  | inr above ↦
      let n : j ≢ idx = λ e. absurd (ground (arith, above, l, e)) in
      rw (above, eq_other j idx n) (find-retain_kept keep j rest l)
]

find-retain_dropped :
    (keep j : ℕ) (d : Dict ℕ StoredBlock) → keep ≤ j → find j (retain_below keep d) ≡ none
find-retain_dropped keep j [] l = refl
find-retain_dropped keep j ((idx, blk) ∷ rest) l = elim (Bool-cases (ltb idx keep)) [
  | inl below ↦
      let n : j ≢ idx = λ e. absurd (ground (arith, below, l, e)) in
      rw (below, eq_other j idx n) (find-retain_dropped keep j rest l)
  | inr above ↦ rw above (find-retain_dropped keep j rest l)
]

-- A file of the backend.
record HasNode (ino s cs : ℕ) (w : MemStore) : Type 0 where
  node : Node
  found : find ino w ≡ some node
  is_regular : node.regular ≡ true
  chunk : node.chunk_size ≡ cs

irregular : (n : Node) (g : ℕ × ℕ) → n.regular ≡ false → geometry_of (some n) ≢ some g
irregular n g r h = let none_some : ◌≡◌ {A = Option (ℕ × ℕ)} none (some g) = rw r at h in cc

has_node :
    (ino s cs : ℕ) (w : MemStore) → geometry_of (find ino w) ≡ some (s, cs) → HasNode ino s cs w
has_node ino s cs w h = go (find ino w) refl h
  where
    go : (o : Option Node) → find ino w ≡ o → geometry_of o ≡ some (s, cs) → HasNode ino s cs w
    go none e h = absurd cc
    go (some n) e h = elim (Bool-cases n.regular) [
      | inl r ↦
          let h' : ◌≡◌ {A = Option (ℕ × ℕ)} (some (n.size, n.chunk_size)) (some (s, cs)) =
            rw r at h in
          let a : ℕ × ℕ = (n.size, n.chunk_size) in
          let b : ℕ × ℕ = (s, cs) in
          let p : a ≡ b = cc in
          record { node = n; found = e; is_regular = r; chunk = ap (λ q. q.1) p }
      | inr r ↦ absurd (irregular n (s, cs) r h)
    ]

module _ (ino s cs : ℕ) (w : MemStore) (h : HasNode ino s cs w) where
  updated : (f : Node → Node) → update_node ino f w ≡ (ok tt, put ino (f h.node) w)
  updated f =
      ap
        (λ o. elim o as (λ _. Result (Unit {0}) × MemStore) [
          | none ↦ (err not_found, w)
          | some n ↦ (ok tt, put ino (f n) w)
        ])
        h.found

  mem_put_block-PutBlock :
      (idx : ℕ) (blk : StoredBlock) (new_size : ℕ)
      → Ensures
          (λ _ w'. PutBlock mem_store ino idx blk new_size cs w w')
          (λ _. ⊥)
          (mem_put_block ino idx blk new_size w)
  unfolding mem_put_block mem_store
  mem_put_block-PutBlock idx blk new_size =
      let f : Node → Node = λ n. record n { blocks = put idx blk n.blocks; size = new_size } in
      rw (updated f) (record {
        here = rw (find-put_same ino (f h.node) w, find-put_same idx blk h.node.blocks) refl;
        others = λ j n.
            rw (find-put_same ino (f h.node) w, h.found, find-put_other idx j blk h.node.blocks n)
              refl;
        geometry = rw (find-put_same ino (f h.node) w, h.is_regular, h.chunk) refl;
      })

  mem_truncate_blocks-TruncateBlocks :
      (keep_from new_size : ℕ)
      → Ensures
          (λ _ w'. TruncateBlocks mem_store ino keep_from new_size cs w w')
          (λ _. ⊥)
          (mem_truncate_blocks ino keep_from new_size w)
  unfolding mem_truncate_blocks mem_store
  mem_truncate_blocks-TruncateBlocks keep_from new_size =
      let f : Node → Node =
        λ n. record n { blocks = retain_below keep_from n.blocks; size = new_size } in
      rw (updated f) (record {
        kept = λ j l.
            rw
              (
                find-put_same ino (f h.node) w,
                h.found,
                find-retain_kept keep_from j h.node.blocks l,
              )
              refl;
        dropped = λ j l.
            rw (find-put_same ino (f h.node) w, find-retain_dropped keep_from j h.node.blocks l)
              refl;
        geometry = rw (find-put_same ino (f h.node) w, h.is_regular, h.chunk) refl;
      })

-- On every file the store in memory does what the trait asks of its methods on blocks, and never
-- fails.
pub mem_store-IsLawful : (ino : ℕ) → IsLawful mem_store ino (λ _. ⊥)
unfolding mem_store
mem_store-IsLawful ino = record {
  put_block_lem = λ idx blk new_size s cs w g.
      mem_put_block-PutBlock ino s cs w (has_node ino s cs w g) idx blk new_size;
  seal_tail_block_lem = λ idx blk new_size s cs w g.
      mem_put_block-PutBlock ino s cs w (has_node ino s cs w g) idx blk new_size;
  truncate_blocks_lem = λ keep_from new_size s cs w g.
      mem_truncate_blocks-TruncateBlocks ino s cs w (has_node ino s cs w g) keep_from new_size;
  append_tail_lem = λ delta new_size s cs w j g. absurd cc;
  set_head_cache_lem =
      λ stored_bytes verbatim rawlen w. record { blocks = λ j. refl; geometry = refl };
}
