-- ===== src/BlockCache/Methods.antt =====
-- The removal of a block from the cache (crates/scrollz/src/core/blockcache.rs) and its
-- invariant.
use fuse_scrollfs.BlockCache.{
  Inner, Key, Node, drop_node, keep_set, keyed_nat, keyed_pair, remove_key, unindex,
}
use fuse_scrollfs.BlockCache.Invariant.{IsConsistent, drop_node-IsConsistent, find-erase-none}
use fuse_scrollfs.Dict.{
  Dict, erase, find, find-erase_other, find-erase_same, find-put_other, find-put_same,
}
use fuse_scrollfs.Prelude.{
  ==_iff, Bool-cases, Option-cases, [], ap, inl, inr, none, refl, set, some, sym, ℕ, ◌==◌, ◌∙◌, ◌∷◌,
  ◌≡◌, ◌≢◌,
}
use mathlib.Core.Path.{subst}

abbrev pub Indexed : Key → Dict ℕ (Dict ℕ (Unit {0})) → Type 0
Indexed k by_ino =
    (set : Dict ℕ (Unit {0})) × (find k.0 by_ino ≡ some set) × (find k.1 set ≡ some tt)

keep_set_same :
    (j : Key) (set : Dict ℕ (Unit {0})) (by_ino : Dict ℕ (Dict ℕ (Unit {0})))
    → find j.1 set ≡ some tt
    → Indexed j (keep_set j.0 set by_ino)
keep_set_same j [] by_ino h = absurd cc
keep_set_same j (e ∷ set) by_ino h = (e ∷ set, find-put_same j.0 (e ∷ set) by_ino, h)

keep_set_other :
    (ino : ℕ) (j : Key) (set : Dict ℕ (Unit {0})) (by_ino : Dict ℕ (Dict ℕ (Unit {0})))
    → j.0 ≢ ino
    → Indexed j by_ino
    → Indexed j (keep_set ino set by_ino)
keep_set_other ino j [] by_ino n (s, a, b) = (s, find-erase_other ino j.0 by_ino n ∙ a, b)
keep_set_other ino j (e ∷ set) by_ino n (s, a, b) =
    (s, find-put_other ino j.0 (e ∷ set) by_ino n ∙ a, b)

-- The same inode: the other block stays in the set.
keep_set-erase :
    (k j : Key) (set : Dict ℕ (Unit {0})) (by_ino : Dict ℕ (Dict ℕ (Unit {0})))
    → j ≢ k
    → j.0 ≡ k.0
    → find k.0 by_ino ≡ some set
    → Indexed j by_ino
    → Indexed j (keep_set k.0 (erase k.1 set) by_ino)
keep_set-erase k j set by_ino n q e (s, a, b) =
    let same : some s ≡ some set = sym a ∙ ap (λ x. find x by_ino) q ∙ e in
    let t : s ≡ set = cc in
    let apart : j.1 ≢ k.1 = λ r. n (λ i. (q i, r i)) in
    subst (λ x. Indexed j (keep_set x (erase k.1 set) by_ino)) q
      (keep_set_same j (erase k.1 set) by_ino
        (find-erase_other k.1 j.1 set apart ∙ ap (find j.1) (sym t) ∙ b))

unindex-none :
    (k : Key) (by_ino : Dict ℕ (Dict ℕ (Unit {0})))
    → find k.0 by_ino ≡ none
    → unindex k by_ino ≡ by_ino
unfolding unindex
unindex-none k by_ino e = rw (unindex, e) refl

unindex-some :
    (k : Key) (by_ino : Dict ℕ (Dict ℕ (Unit {0}))) (set : Dict ℕ (Unit {0}))
    → find k.0 by_ino ≡ some set
    → unindex k by_ino ≡ keep_set k.0 (erase k.1 set) by_ino
unfolding unindex
unindex-some k by_ino set e = rw (unindex, e) refl

unindex_other :
    (k j : Key) (by_ino : Dict ℕ (Dict ℕ (Unit {0})))
    → j ≢ k
    → Indexed j by_ino
    → Indexed j (unindex k by_ino)
unindex_other k j by_ino n h = elim (Option-cases (find k.0 by_ino)) [
  | inl e ↦ subst (Indexed j) (sym (unindex-none k by_ino e)) h
  | inr (set, e) ↦
      subst (Indexed j) (sym (unindex-some k by_ino set e)) (elim (Bool-cases (j.0 == k.0)) [
        | inl same ↦ keep_set-erase k j set by_ino n ((==_iff j.0 k.0).0 same) e h
        | inr apart ↦
            keep_set_other k.0 j (erase k.1 set) by_ino (λ q. let r = (==_iff j.0 k.0).1 q in cc) h
      ])
]

pub remove_key-none : (g : Inner) (k : Key) → find k g.map ≡ none → remove_key g k ≡ g
unfolding remove_key
remove_key-none g k e = rw (remove_key, e) refl

pub remove_key-some :
    (g : Inner) (k : Key) (n : Node)
    → find k g.map ≡ some n
    → remove_key g k ≡ record (drop_node k n g) { by_ino = unindex k g.by_ino }
unfolding remove_key
remove_key-some g k n e = rw (remove_key, e) refl

pub remove_key-IsConsistent : (g : Inner) (k : Key) → IsConsistent g → IsConsistent (remove_key g k)
remove_key-IsConsistent g k c = elim (Option-cases (find k g.map)) [
  | inl e ↦ subst IsConsistent (sym (remove_key-none g k e)) c
  | inr (n, e) ↦ subst IsConsistent (sym (remove_key-some g k n e)) (
      drop_node-IsConsistent g k n (unindex k g.by_ino) c e
        (λ j m ne f. unindex_other k j g.by_ino ne (c.indexed j m f)))
]

pub remove_key_absent : (g : Inner) (k : Key) → find k (remove_key g k).map ≡ none
remove_key_absent g k = elim (Option-cases (find k g.map)) [
  | inl e ↦ subst (λ x. find k x.map ≡ none) (sym (remove_key-none g k e)) e
  | inr (n, e) ↦
      subst (λ x. find k x.map ≡ none) (sym (remove_key-some g k n e)) (find-erase_same k g.map)
]

-- What is not cached stays so.
pub remove_key_other :
    (g : Inner) (k j : Key) → find j g.map ≡ none → find j (remove_key g k).map ≡ none
remove_key_other g k j h = elim (Option-cases (find k g.map)) [
  | inl e ↦ subst (λ x. find j x.map ≡ none) (sym (remove_key-none g k e)) h
  | inr (n, e) ↦
      subst (λ x. find j x.map ≡ none) (sym (remove_key-some g k n e)) (find-erase-none j k g.map h)
]
