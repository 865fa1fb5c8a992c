-- ===== src/BlockCache/Invalidate.antt =====
-- The invalidation of an inode in the cache of crates/scrollz/src/core/blockcache.rs.
use fuse_scrollfs.BlockCache.{
  Inner, Key, Node, drop_blocks, drop_node, get, invalidate, keyed_nat, keyed_pair,
}
use fuse_scrollfs.BlockCache.Invariant.{IsConsistent, find-erase-none}
use fuse_scrollfs.Dict.{Dict, erase, find, find-erase_same}
use fuse_scrollfs.Prelude.{
  Bool-cases, Option-cases, [], false, inl, inr, none, refl, set, some, sym, true, ℕ, ◌==◌, ◌∷◌,
  ◌≡◌,
}
use mathlib.Core.Path.{subst}

drop_blocks-none :
    (ino i : ℕ) (u : Unit {0}) (idxs : Dict ℕ (Unit {0})) (g : Inner)
    → find (ino, i) g.map ≡ none
    → drop_blocks ino ((i, u) ∷ idxs) g ≡ drop_blocks ino idxs g
unfolding drop_blocks
drop_blocks-none ino i u idxs g e = rw (drop_blocks, e) refl

drop_blocks-some :
    (ino i : ℕ) (u : Unit {0}) (idxs : Dict ℕ (Unit {0})) (g : Inner) (n : Node)
    → find (ino, i) g.map ≡ some n
    → drop_blocks ino ((i, u) ∷ idxs) g ≡ drop_blocks ino idxs (drop_node (ino, i) n g)
unfolding drop_blocks
drop_blocks-some ino i u idxs g n e = rw (drop_blocks, e) refl

-- What is not cached stays so.
drop_blocks_absent :
    (ino : ℕ) (k : Key) (idxs : Dict ℕ (Unit {0})) (g : Inner)
    → find k g.map ≡ none
    → find k (drop_blocks ino idxs g).map ≡ none
unfolding drop_blocks
drop_blocks_absent ino k [] g h = h
drop_blocks_absent ino k ((i, u) ∷ idxs) g h = elim (Option-cases (find (ino, i) g.map)) [
  | inl e ↦
      subst (λ x. find k x.map ≡ none) (sym (drop_blocks-none ino i u idxs g e))
        (drop_blocks_absent ino k idxs g h)
  | inr (n, e) ↦
      subst (λ x. find k x.map ≡ none) (sym (drop_blocks-some ino i u idxs g n e))
        (drop_blocks_absent ino k idxs (drop_node (ino, i) n g)
          (find-erase-none k (ino, i) g.map h))
]

drop_blocks_head :
    (ino i : ℕ) (u : Unit {0}) (idxs : Dict ℕ (Unit {0})) (g : Inner)
    → find (ino, i) (drop_blocks ino ((i, u) ∷ idxs) g).map ≡ none
drop_blocks_head ino i u idxs g = elim (Option-cases (find (ino, i) g.map)) [
  | inl e ↦
      subst (λ x. find (ino, i) x.map ≡ none) (sym (drop_blocks-none ino i u idxs g e))
        (drop_blocks_absent ino (ino, i) idxs g e)
  | inr (n, e) ↦
      subst (λ x. find (ino, i) x.map ≡ none) (sym (drop_blocks-some ino i u idxs g n e))
        (drop_blocks_absent ino (ino, i) idxs (drop_node (ino, i) n g)
          (find-erase_same (ino, i) g.map))
]

-- Every block of the set goes.
drop_blocks_listed :
    (ino idx : ℕ) (idxs : Dict ℕ (Unit {0})) (g : Inner)
    → find idx idxs ≡ some tt
    → find (ino, idx) (drop_blocks ino idxs g).map ≡ none
drop_blocks_listed ino idx [] g h = absurd cc
drop_blocks_listed ino idx ((i, u) ∷ idxs) g h = elim (Bool-cases (keyed_nat.eq idx i)) [
  | inl same ↦
      subst (λ x. find (ino, x) (drop_blocks ino ((i, u) ∷ idxs) g).map ≡ none)
        (sym (keyed_nat.eq_sound idx i same)) (drop_blocks_head ino i u idxs g)
  | inr other ↦ elim (Option-cases (find (ino, i) g.map)) [
    | inl e ↦
        subst (λ x. find (ino, idx) x.map ≡ none) (sym (drop_blocks-none ino i u idxs g e))
          (drop_blocks_listed ino idx idxs g (rw other at h))
    | inr (n, e) ↦
        subst (λ x. find (ino, idx) x.map ≡ none) (sym (drop_blocks-some ino i u idxs g n e))
          (drop_blocks_listed ino idx idxs (drop_node (ino, i) n g) (rw other at h))
  ]
]

invalidate-none :
    (cap ino : ℕ) (g : Inner)
    → (cap == 0) ≡ false
    → find ino g.by_ino ≡ none
    → invalidate cap ino g ≡ g
unfolding invalidate
invalidate-none cap ino g p e = rw (invalidate, p, e) refl

invalidate-some :
    (cap ino : ℕ) (g : Inner) (set : Dict ℕ (Unit {0}))
    → (cap == 0) ≡ false
    → find ino g.by_ino ≡ some set
    → invalidate cap ino g ≡ drop_blocks ino set (record g { by_ino = erase ino g.by_ino })
unfolding invalidate
invalidate-some cap ino g set p e = rw (invalidate, p, e) refl

-- What the index does not list is not cached.
unlisted_absent :
    (ino idx : ℕ) (g : Inner)
    → IsConsistent g
    → find ino g.by_ino ≡ none
    → find (ino, idx) g.map ≡ none
unlisted_absent ino idx g c e = elim (Option-cases (find (ino, idx) g.map)) [
  | inl f ↦ f
  | inr (n, f) ↦ let (set, a, b) = c.indexed (ino, idx) n f in absurd cc
]

listed_absent :
    (ino idx : ℕ) (g : Inner) (set : Dict ℕ (Unit {0}))
    → IsConsistent g
    → find ino g.by_ino ≡ some set
    → find (ino, idx) (drop_blocks ino set (record g { by_ino = erase ino g.by_ino })).map ≡ none
listed_absent ino idx g set c e =
    let g' = record g { by_ino = erase ino g.by_ino } in
    elim (Option-cases (find (ino, idx) g.map)) [
      | inl f ↦ drop_blocks_absent ino (ino, idx) set g' f
      | inr (n, f) ↦
          let (set', a, b) = c.indexed (ino, idx) n f in
          let q : set' ≡ set = cc in
          drop_blocks_listed ino idx set g' (subst (λ x. find idx x ≡ some tt) q b)
    ]

invalidate_absent :
    (cap ino idx : ℕ) (g : Inner)
    → (cap == 0) ≡ false
    → IsConsistent g
    → find (ino, idx) (invalidate cap ino g).map ≡ none
invalidate_absent cap ino idx g p c = elim (Option-cases (find ino g.by_ino)) [
  | inl e ↦
      subst (λ x. find (ino, idx) x.map ≡ none) (sym (invalidate-none cap ino g p e))
        (unlisted_absent ino idx g c e)
  | inr (set, e) ↦
      subst (λ x. find (ino, idx) x.map ≡ none) (sym (invalidate-some cap ino g set p e))
        (listed_absent ino idx g set c e)
]

get_disabled : (cap ino idx : ℕ) (g : Inner) → (cap == 0) ≡ true → (get cap ino idx g).0 ≡ none
unfolding get
get_disabled cap ino idx g e = rw (get, e) refl

get_absent :
    (cap ino idx : ℕ) (g : Inner)
    → (cap == 0) ≡ false
    → find (ino, idx) g.map ≡ none
    → (get cap ino idx g).0 ≡ none
unfolding get
get_absent cap ino idx g p e = rw (get, p, e) refl

-- After an invalidation of a consistent cache no block of the inode is read from it.
pub get-invalidate :
    (cap ino idx : ℕ) (g : Inner)
    → IsConsistent g
    → (get cap ino idx (invalidate cap ino g)).0 ≡ none
get-invalidate cap ino idx g c = elim (Bool-cases (cap == 0)) [
  | inl off ↦ get_disabled cap ino idx (invalidate cap ino g) off
  | inr on ↦ get_absent cap ino idx (invalidate cap ino g) on (invalidate_absent cap ino idx g on c)
]
