-- ===== src/BlockCache/Invariant.antt =====
-- The invariant of the block cache of crates/scrollz/src/core/blockcache.rs.
use fuse_scrollfs.BlockCache.{Inner, Key, Node, drop_node, keyed_nat, keyed_pair}
use fuse_scrollfs.Dict.{
  Dict, Distinct, erase, erase-Distinct, find, find-erase-some, find-erase_other,
}
use fuse_scrollfs.Prelude.{
  Bool-cases, Option-cases, [], ap, arith, inl, inr, length, none, refl, some, sym, ℕ, ◌+◌, ◌∙◌,
  ◌∷◌, ◌≡◌, ◌≢◌, ◌≤◌,
}
use mathlib.Core.Path.{subst}

abbrev pub total : Dict Key Node → ℕ
total [] = 0
total ((k, n) ∷ d) = length n.bytes + total d

-- The byte count is the sum over the nodes, every node has its own place in the order, numbered at
-- most by the counter, and every node is in the index of its inode.
pub record IsConsistent (g : Inner) : Type 0 where
  pub distinct : Distinct g.map
  pub order_distinct : Distinct g.order
  pub accounted : g.cur_bytes ≡ total g.map
  pub linked :
      (k : Key) (n : Node) → find k g.map ≡ some n → (find n.seq g.order ≡ some k) × (n.seq ≤ g.seq)
  pub indexed :
      (k : Key) (n : Node)
      → find k g.map ≡ some n
      → (set : Dict ℕ (Unit {0})) × (find k.0 g.by_ino ≡ some set) × (find k.1 set ≡ some tt)

pub erase_absent : (k : Key) (d : Dict Key Node) → find k d ≡ none → erase k d ≡ d
erase_absent k [] h = refl
erase_absent k ((j, n) ∷ d) h = elim (Bool-cases (keyed_pair.eq k j)) [
  | inl e ↦ let h' = rw e at h in absurd cc
  | inr e ↦ rw e (ap (λ r. (j, n) ∷ r) (erase_absent k d (rw e at h)))
]

pub total-erase :
    (k : Key) (d : Dict Key Node) (n : Node)
    → Distinct d
    → find k d ≡ some n
    → total (erase k d) + length n.bytes ≡ total d
total-erase k [] n u h = absurd cc
total-erase k ((j, m) ∷ d) n u h = elim (Bool-cases (keyed_pair.eq k j)) [
  | inl e ↦
      let q : k ≡ j = keyed_pair.eq_sound k j e in
      let found : some m ≡ some n = rw e at h in
      let absent : find k d ≡ none = subst (λ x. find x d ≡ none) (sym q) u.0 in
      let same : m ≡ n = cc in
      rw e (omega (arith, ap total (erase_absent k d absent), ap (λ x. length x.bytes) same))
  | inr e ↦ rw e (omega (arith, total-erase k d n u.1 (rw e at h)))
]

-- Two nodes never share a place in the order.
pub seq_apart :
    (g : Inner) (k j : Key) (n m : Node)
    → IsConsistent g
    → find k g.map ≡ some n
    → find j g.map ≡ some m
    → j ≢ k
    → m.seq ≢ n.seq
seq_apart g k j n m c h i ne e =
    let a = (c.linked k n h).0 in
    let b = (c.linked j m i).0 in
    let q : some j ≡ some k = sym b ∙ ap (λ s. find s g.order) e ∙ a in ne cc

-- Dropping a node keeps what is left consistent, if the index keeps the others.
pub drop_node-IsConsistent :
    (g : Inner) (k : Key) (n : Node) (by_ino : Dict ℕ (Dict ℕ (Unit {0})))
    → IsConsistent g
    → find k g.map ≡ some n
    → ((j : Key) (m : Node)
        → j ≢ k
        → find j g.map ≡ some m
        → (set : Dict ℕ (Unit {0})) × (find j.0 by_ino ≡ some set) × (find j.1 set ≡ some tt))
    → IsConsistent (record (drop_node k n g) { by_ino = by_ino })
drop_node-IsConsistent g k n by_ino c h keep = record {
  distinct = erase-Distinct k g.map c.distinct;
  order_distinct = erase-Distinct n.seq g.order c.order_distinct;
  accounted = omega (arith, c.accounted, total-erase k g.map n c.distinct h);
  linked = λ j m f.
      let (ne, f') = find-erase-some k j g.map f in
      let (a, b) = c.linked j m f' in
      (find-erase_other n.seq m.seq g.order (seq_apart g k j n m c h f' ne) ∙ a, b);
  indexed = λ j m f. let (ne, f') = find-erase-some k j g.map f in keep j m ne f';
}

pub find-erase-none : (k a : Key) (d : Dict Key Node) → find k d ≡ none → find k (erase a d) ≡ none
find-erase-none k a d h = elim (Option-cases (find k (erase a d))) [
  | inl e ↦ e
  | inr (v, e) ↦ let f = (find-erase-some a k d e).1 in absurd cc
]
