-- ===== src/BlockCache/Insert.antt =====
-- The insertion of a block into the cache of crates/scrollz/src/core/blockcache.rs.
use fuse_scrollfs.BlockCache.{
  Inner, Key, Node, evict, index_block, insert, insert_node, keyed_nat, keyed_pair,
  refresh_effective_cap, remove_key,
}
use fuse_scrollfs.BlockCache.Evict.{evict-IsConsistent}
use fuse_scrollfs.BlockCache.Invariant.{IsConsistent, erase_absent, total}
use fuse_scrollfs.BlockCache.Methods.{Indexed, remove_key-IsConsistent, remove_key_absent}
use fuse_scrollfs.Bytes.{Bytes}
use fuse_scrollfs.Dict.{Dict, find, find-put-some, find-put_other, find-put_same, put, put-Distinct}
use fuse_scrollfs.Prelude.{
  ==_iff, Bool, Bool-cases, Option, [], ap, arith, false, if◌then◌else◌, inl, inr, length, ltb,
  none, refl, set, some, sym, true, ℕ, ◌+◌, ◌==◌, ◌||◌, ◌∙◌, ◌≡◌, ◌≢◌,
}
use mathlib.Core.Path.{subst}

index_block_self :
    (k : Key) (by_ino : Dict ℕ (Dict ℕ (Unit {0}))) → Indexed k (index_block k by_ino)
unfolding index_block
index_block_self k by_ino =
    let old = elim (find k.0 by_ino) as (λ _. Dict ℕ (Unit {0})) [ none ↦ [] | some set ↦ set ] in
    (put k.1 tt old, find-put_same k.0 (put k.1 tt old) by_ino, find-put_same k.1 tt old)

index_block-some :
    (k : Key) (by_ino : Dict ℕ (Dict ℕ (Unit {0}))) (set : Dict ℕ (Unit {0}))
    → find k.0 by_ino ≡ some set
    → index_block k by_ino ≡ put k.0 (put k.1 tt set) by_ino
unfolding index_block
index_block-some k by_ino set e = rw (index_block, e) refl

index_block_other :
    (k j : Key) (by_ino : Dict ℕ (Dict ℕ (Unit {0})))
    → j ≢ k
    → Indexed j by_ino
    → Indexed j (index_block k by_ino)
unfolding index_block
index_block_other k j by_ino n (s, a, b) = elim (Bool-cases (j.0 == k.0)) [
  | inl same ↦
      let q = (==_iff j.0 k.0).0 same in
      let e : find k.0 by_ino ≡ some s = ap (λ x. find x by_ino) (sym q) ∙ a in
      let apart : j.1 ≢ k.1 = λ r. n (λ i. (q i, r i)) in
      subst (Indexed j) (sym (index_block-some k by_ino s e)) (
        put k.1 tt s,
        ap (λ x. find x (put k.0 (put k.1 tt s) by_ino)) q
            ∙ find-put_same k.0 (put k.1 tt s) by_ino,
        find-put_other k.1 j.1 tt s apart ∙ b,
      )
  | inr apart ↦
      (s, find-put_other k.0 j.0 _ by_ino (λ q. let r = (==_iff j.0 k.0).1 q in cc) ∙ a, b)
]

-- The node with the next number.
abbrev pub put_node : Key → Bytes → Inner → Inner
put_node k bytes g = record g {
  seq = g.seq + 1;
  order = put (g.seq + 1) k g.order;
  map = put k (record { bytes = bytes; seq = g.seq + 1 }) g.map;
  by_ino = index_block k g.by_ino;
  cur_bytes = g.cur_bytes + length bytes;
}

pub put_node-IsConsistent :
    (g : Inner) (k : Key) (bytes : Bytes)
    → IsConsistent g
    → find k g.map ≡ none
    → IsConsistent (put_node k bytes g)
put_node-IsConsistent g k bytes c absent =
    let node : Node = record { bytes = bytes; seq = g.seq + 1 } in
    record {
      distinct = put-Distinct k node g.map c.distinct;
      order_distinct = put-Distinct (g.seq + 1) k g.order c.order_distinct;
      accounted = omega (arith, c.accounted, ap total (erase_absent k g.map absent));
      linked = λ j n f. elim (find-put-some k j node g.map f) [
        | inl (q, e) ↦
            let r : node ≡ n = cc in
            let t : n.seq ≡ g.seq + 1 = ap (λ x. x.seq) (sym r) in
            (
              ap (λ x. find x (put (g.seq + 1) k g.order)) t
                  ∙ find-put_same (g.seq + 1) k g.order
                  ∙ ap some (sym q),
              omega (arith, t),
            )
        | inr (ne, f') ↦
            let (a, b) = c.linked j n f' in
            (
              find-put_other (g.seq + 1) n.seq k g.order (λ q. omega (arith, b, q)) ∙ a,
              omega (arith, b),
            )
      ];
      indexed = λ j n f. elim (find-put-some k j node g.map f) [
        | inl (q, e) ↦
            subst (λ x. Indexed x (index_block k g.by_ino)) (sym q) (index_block_self k g.by_ino)
        | inr (ne, f') ↦ index_block_other k j g.by_ino ne (c.indexed j n f')
      ];
    }

-- Caching a block keeps the cache consistent.
pub insert_node-IsConsistent :
    (ino idx : ℕ) (bytes : Bytes) (g : Inner)
    → IsConsistent g
    → IsConsistent (insert_node ino idx bytes g)
unfolding insert_node
insert_node-IsConsistent ino idx bytes g c =
    let g1 = remove_key g (ino, idx) in
    let (c2, absent) =
      evict-IsConsistent (length g1.order) (length bytes) (ino, idx) g1
        (remove_key-IsConsistent g (ino, idx) c) (remove_key_absent g (ino, idx)) in
    put_node-IsConsistent (evict (length g1.order) (length bytes) g1) (ino, idx) bytes c2 absent

either-IsConsistent :
    (test : Bool) (g h : Inner)
    → IsConsistent g
    → IsConsistent h
    → IsConsistent (if test then g else h)
either-IsConsistent true g h c d = c
either-IsConsistent false g h c d = d

pub refresh-IsConsistent :
    (cap probe_interval now : ℕ) (available : Option ℕ) (g : Inner)
    → IsConsistent g
    → IsConsistent (refresh_effective_cap cap probe_interval now available g)
unfolding refresh_effective_cap
refresh-IsConsistent cap probe_interval now available g c =
    either-IsConsistent _ _ g
      (record {
        distinct = c.distinct;
        order_distinct = c.order_distinct;
        accounted = c.accounted;
        linked = c.linked;
        indexed = c.indexed;
      })
      c

-- Inserting a block keeps the cache consistent on every branch: the byte count is the sum over
-- the nodes, every node has its own place in the eviction order, and every node is in the index
-- of its inode.
pub insert-IsConsistent :
    (cap probe_interval now : ℕ) (available : Option ℕ) (ino idx : ℕ) (bytes : Bytes) (g : Inner)
    → IsConsistent g
    → IsConsistent (insert cap probe_interval now available ino idx bytes g)
unfolding insert
insert-IsConsistent cap probe_interval now available ino idx bytes g c =
    let g' = refresh_effective_cap cap probe_interval now available g in
    let c' = refresh-IsConsistent cap probe_interval now available g c in
    elim (Bool-cases (cap == 0)) [
      | inl off ↦ rw off c
      | inr on ↦ rw on (elim (Bool-cases (g'.eff_cap == 0 || ltb g'.eff_cap (length bytes))) [
        | inl over ↦ rw over (remove_key-IsConsistent g' (ino, idx) c')
        | inr fits ↦ rw fits (insert_node-IsConsistent ino idx bytes g' c')
      ])
    ]
