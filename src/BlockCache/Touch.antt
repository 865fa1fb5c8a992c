-- ===== src/BlockCache/Touch.antt =====
-- The read of a block from the cache of crates/scrollz/src/core/blockcache.rs.
use fuse_scrollfs.BlockCache.{Inner, Key, Node, get, keyed_nat, keyed_pair}
use fuse_scrollfs.BlockCache.Invariant.{IsConsistent, seq_apart, total-erase}
use fuse_scrollfs.Dict.{
  erase, erase-Distinct, find, find-erase_other, find-put-some, find-put_other, find-put_same, put,
  put-Distinct,
}
use fuse_scrollfs.Prelude.{
  Bool-cases, Option-cases, ap, arith, inl, inr, some, sym, ℕ, ◌+◌, ◌==◌, ◌∙◌, ◌≡◌, ◌≢◌,
}

module _ (g : Inner) (k : Key) (n : Node) (c : IsConsistent g) (h : find k g.map ≡ some n) where
  touched : Inner
  touched = record g {
    seq = g.seq + 1;
    map = put k (record n { seq = g.seq + 1 }) g.map;
    order = put (g.seq + 1) k (erase n.seq g.order);
  }

  touched-IsConsistent : IsConsistent touched
  unfolding touched
  touched-IsConsistent = record {
    distinct = put-Distinct k (record n { seq = g.seq + 1 }) g.map c.distinct;
    order_distinct =
        put-Distinct (g.seq + 1) k (erase n.seq g.order)
          (erase-Distinct n.seq g.order c.order_distinct);
    accounted = omega (arith, c.accounted, total-erase k g.map n c.distinct h);
    linked = λ j m f. elim (find-put-some k j (record n { seq = g.seq + 1 }) g.map f) [
      | inl (p, s) ↦
          let q : m ≡ record n { seq = g.seq + 1 } = cc in
          let e : m.seq ≡ g.seq + 1 = ap (λ x. x.seq) q in
          (
            ap (λ x. find x (put (g.seq + 1) k (erase n.seq g.order))) e
                ∙ find-put_same (g.seq + 1) k (erase n.seq g.order)
                ∙ ap (λ x. some x) (sym p),
            omega (arith, e),
          )
      | inr (apart, f') ↦
          let (a, b) = c.linked j m f' in
          let old : m.seq ≢ g.seq + 1 = λ e. absurd (omega (arith, e, b)) in
          (
            find-put_other (g.seq + 1) m.seq k (erase n.seq g.order) old
                ∙ find-erase_other n.seq m.seq g.order (seq_apart g k j n m c h f' apart)
                ∙ a,
            omega (arith, b),
          )
    ];
    indexed = λ j m f. elim (find-put-some k j (record n { seq = g.seq + 1 }) g.map f) [
      | inl (p, q) ↦ rw p (c.indexed k n h)
      | inr (apart, f') ↦ c.indexed j m f'
    ];
  }

-- A read keeps a consistent cache consistent, whether it finds a block and moves it to the end of
-- the eviction order or not.
pub get-IsConsistent :
    (configured_cap ino idx : ℕ) (g : Inner)
    → IsConsistent g
    → IsConsistent (get configured_cap ino idx g).1
unfolding get touched
get-IsConsistent configured_cap ino idx g c = elim (Bool-cases (configured_cap == 0)) [
  | inl off ↦ rw (get, off) c
  | inr on ↦ elim (Option-cases (find (ino, idx) g.map)) [
    | inl e ↦ rw (get, on, e) c
    | inr (n, e) ↦ rw (get, on, e) (touched-IsConsistent g (ino, idx) n c e)
  ]
]
