-- ===== src/BlockCache/Budget.antt =====
-- The byte budget of the cache of crates/scrollz/src/core/blockcache.rs.
use fuse_scrollfs.BlockCache.{
  Inner, Key, Node, evict, evict_entry, first_entry, insert, insert_node, keyed_nat, keyed_pair,
  refresh_effective_cap, remove_key,
}
use fuse_scrollfs.BlockCache.Evict.{
  evict_entry-Keeps, evict_entry-none, evict_entry-some, evict_step, evict_stop, first_entry-find,
  first_entry-none, first_entry-some, guarded,
}
use fuse_scrollfs.BlockCache.Insert.{refresh-IsConsistent}
use fuse_scrollfs.BlockCache.Invariant.{IsConsistent, total}
use fuse_scrollfs.BlockCache.Methods.{remove_key-IsConsistent, remove_key_absent}
use fuse_scrollfs.Bytes.{Bytes}
use fuse_scrollfs.Dict.{Dict, erase, find, length-erase-some}
use fuse_scrollfs.Prelude.{
  ==_iff, Bool-cases, Option, Option-cases, [], arith, false, if◌then◌else◌, inl, inr, length, ltb,
  none, refl, some, suc, sym, zero, ℕ, ◌+◌, ◌<◌, ◌==◌, ◌||◌, ◌∙◌, ◌∷◌, ◌≡◌, ◌≤◌, ◌⊎◌,
}
use mathlib.Core.Path.{subst}

first_entry-empty : (d : Dict ℕ Key) → first_entry d ≡ none → d ≡ []
first_entry-empty [] h = refl
first_entry-empty (e ∷ d) h = elim (Option-cases (first_entry d)) [
  | inl q ↦ let s : some e ≡ none = sym (first_entry-none e d q) ∙ h in absurd cc
  | inr (f, q) ↦
      let s : some (if ltb f.0 e.0 then f else e) ≡ none = sym (first_entry-some e f d q) ∙ h in
      absurd cc
]

-- With no entry in the order there is no node.
total-empty : (g : Inner) → IsConsistent g → g.order ≡ [] → g.cur_bytes ≡ 0
total-empty g c e = c.accounted ∙ go g.map (λ k n h. (c.linked k n h).0)
  where
    go :
        (d : Dict Key Node)
        → ((k : Key) (n : Node) → find k d ≡ some n → find n.seq g.order ≡ some k)
        → total d ≡ 0
    go [] l = refl
    go ((k, n) ∷ d) l =
        let here : find k ((k, n) ∷ d) ≡ some n = rw (keyed_pair.eq_same k) refl in
        let backed : find n.seq [] ≡ some k = subst (λ o. find n.seq o ≡ some k) e (l k n here) in
        absurd cc

-- One round takes an entry off the order and leaves the budget.
record Shrinks (g h : Inner) : Type 0 where
  shorter : length h.order < length g.order
  same_cap : h.eff_cap ≡ g.eff_cap

evict_entry-Shrinks :
    (g : Inner) (s : ℕ) (k : Key) → find s g.order ≡ some k → Shrinks g (evict_entry g s k)
unfolding remove_key
evict_entry-Shrinks g s k f =
    let less : length (erase s g.order) < length g.order = length-erase-some s g.order f in
    elim (Option-cases (find k g.map)) [
      | inl e ↦
          subst (Shrinks g) (sym (evict_entry-none g s k e))
            (record { shorter = less; same_cap = refl })
      | inr (n, e) ↦
          subst (Shrinks g) (sym (evict_entry-some g s k n e)) (elim (Bool-cases (n.seq == s)) [
            | inr off ↦ rw off (record { shorter = less; same_cap = refl })
            | inl at ↦
                let q : s ≡ n.seq = sym ((==_iff n.seq s).0 at) in
                let less' : length (erase n.seq g.order) < length g.order =
                  subst (λ x. length (erase x g.order) < length g.order) q less in
                rw (at, remove_key, e) (record { shorter = less'; same_cap = refl })
          ])
    ]

-- The loop ends with room for the block.
pub evict-fits :
    (fuel blen : ℕ) (j : Key) (g : Inner)
    → IsConsistent g
    → find j g.map ≡ none
    → blen ≤ g.eff_cap
    → length g.order ≤ fuel
    → (evict fuel blen g).cur_bytes + blen ≤ g.eff_cap
unfolding evict
evict-fits zero blen j g c h fits l =
    let empty : g.order ≡ [] = no_entries g.order l in omega (arith, total-empty g c empty, fits)
  where
    no_entries : (d : Dict ℕ Key) → length d ≤ 0 → d ≡ []
    no_entries [] l = refl
    no_entries (e ∷ d) l = absurd (omega (arith, l))
evict-fits (suc fuel) blen j g c h fits l = elim (Bool-cases (ltb g.eff_cap (g.cur_bytes + blen))) [
  | inr room ↦
      let e : (if ltb g.eff_cap (g.cur_bytes + blen) then first_entry g.order else none) ≡ none =
        rw room refl in
      rw (evict_stop fuel blen g e) (ground (arith, room))
  | inl over ↦ elim (Option-cases (first_entry g.order)) [
    | inl e ↦
        let e' : (if ltb g.eff_cap (g.cur_bytes + blen) then first_entry g.order else none) ≡ none =
          rw (over, e) refl in
        rw (evict_stop fuel blen g e')
          (omega (arith, total-empty g c (first_entry-empty g.order e), fits))
    | inr (x, e) ↦
        let e' : (if ltb g.eff_cap (g.cur_bytes + blen) then first_entry g.order else none)
            ≡ some x =
          rw (over, e) refl in
        let f = first_entry-find g.order x e in
        let s = evict_entry-Shrinks g x.0 x.1 f in
        let (c', h') = evict_entry-Keeps g x.0 x.1 j f (c, h) in
        let rest =
          evict-fits fuel blen j (evict_entry g x.0 x.1) c' h' (omega (arith, fits, s.same_cap))
            (omega (arith, s.shorter, l)) in
        rw (evict_step fuel blen g x e') (omega (arith, rest, s.same_cap))
  ]
]

evict-eff_cap : (fuel blen : ℕ) (g : Inner) → (evict fuel blen g).eff_cap ≡ g.eff_cap
unfolding evict
evict-eff_cap zero blen g = refl
evict-eff_cap (suc fuel) blen g =
    elim (Option-cases (if ltb g.eff_cap (g.cur_bytes + blen) then first_entry g.order else none)) [
      | inl e ↦ rw (evict_stop fuel blen g e) refl
      | inr (x, e) ↦
          let first : first_entry g.order ≡ some x =
            guarded (ltb g.eff_cap (g.cur_bytes + blen)) (first_entry g.order) x e in
          let s = evict_entry-Shrinks g x.0 x.1 (first_entry-find g.order x first) in
          rw (evict_step fuel blen g x e)
            (evict-eff_cap fuel blen (evict_entry g x.0 x.1) ∙ s.same_cap)
    ]

remove_key-eff_cap : (g : Inner) (k : Key) → (remove_key g k).eff_cap ≡ g.eff_cap
unfolding remove_key
remove_key-eff_cap g k = elim (Option-cases (find k g.map)) [
  | inl e ↦ rw (remove_key, e) refl
  | inr (n, e) ↦ rw (remove_key, e) refl
]

insert_node-fits :
    (ino idx : ℕ) (bytes : Bytes) (g : Inner)
    → IsConsistent g
    → length bytes ≤ g.eff_cap
    → (insert_node ino idx bytes g).cur_bytes ≤ (insert_node ino idx bytes g).eff_cap
unfolding insert_node
insert_node-fits ino idx bytes g c fits =
    let g1 = remove_key g (ino, idx) in
    let same = remove_key-eff_cap g (ino, idx) in
    let room =
      evict-fits (length g1.order) (length bytes) (ino, idx) g1
        (remove_key-IsConsistent g (ino, idx) c) (remove_key_absent g (ino, idx))
        (omega (arith, fits, same)) (omega arith) in
    omega (arith, room, evict-eff_cap (length g1.order) (length bytes) g1)

-- After an insertion into a consistent cache whose configured cap is positive, the block is not
-- cached or the cache holds at most as many bytes as the effective cap allows: the eviction loop
-- ends with room, within the fuel of one round for each entry of the order.
pub insert-eff_cap :
    (cap probe_interval now : ℕ) (available : Option ℕ) (ino idx : ℕ) (bytes : Bytes) (g : Inner)
    → 0 < cap
    → IsConsistent g
    → (find (ino, idx) (insert cap probe_interval now available ino idx bytes g).map ≡ none)
      ⊎ ((insert cap probe_interval now available ino idx bytes g).cur_bytes
          ≤ (insert cap probe_interval now available ino idx bytes g).eff_cap)
unfolding insert
insert-eff_cap cap probe_interval now available ino idx bytes g p c =
    let on : (cap == 0) ≡ false = ground (arith, p) in
    let g' = refresh_effective_cap cap probe_interval now available g in
    rw on (elim (Bool-cases (g'.eff_cap == 0 || ltb g'.eff_cap (length bytes))) [
      | inl refused ↦ rw refused (inl (remove_key_absent g' (ino, idx)))
      | inr fits ↦ rw fits (
          inr (
            insert_node-fits ino idx bytes g'
              (refresh-IsConsistent cap probe_interval now available g c) (ground (arith, fits))))
    ])
