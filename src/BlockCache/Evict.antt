-- ===== src/BlockCache/Evict.antt =====
-- The eviction loop of crates/scrollz/src/core/blockcache.rs keeps the cache consistent.
use fuse_scrollfs.BlockCache.{
  Inner, Key, Node, evict, evict_entry, first_entry, keyed_nat, keyed_pair, remove_key,
}
use fuse_scrollfs.BlockCache.Invariant.{IsConsistent}
use fuse_scrollfs.BlockCache.Methods.{remove_key-IsConsistent, remove_key_other}
use fuse_scrollfs.Dict.{Dict, eq_other, erase, erase-Distinct, find, find-erase_other}
use fuse_scrollfs.Prelude.{
  ==_iff, Bool, Bool-cases, Option, Option-cases, [], ap, arith, false, if◌then◌else◌, inl, inr,
  ltb, ltb→lt, none, refl, some, suc, sym, true, zero, ℕ, ◌+◌, ◌==◌, ◌∙◌, ◌∷◌, ◌≡◌, ◌≢◌,
}
use mathlib.Core.Path.{subst}

pub first_entry-none :
    (e : ℕ × Key) (d : Dict ℕ Key) → first_entry d ≡ none → first_entry (e ∷ d) ≡ some e
unfolding first_entry
first_entry-none e d h = rw (first_entry, h) refl

pub first_entry-some :
    (e f : ℕ × Key) (d : Dict ℕ Key)
    → first_entry d ≡ some f
    → first_entry (e ∷ d) ≡ some (if ltb f.0 e.0 then f else e)
unfolding first_entry
first_entry-some e f d h = rw (first_entry, h) refl

-- The first entry is in the order.
pub first_entry-find :
    (d : Dict ℕ Key) (e : ℕ × Key) → first_entry d ≡ some e → find e.0 d ≡ some e.1
unfolding first_entry
first_entry-find [] e h = absurd cc
first_entry-find (e0 ∷ d) e h = elim (Option-cases (first_entry d)) [
  | inl q ↦
      let s : some e0 ≡ some e = sym (first_entry-none e0 d q) ∙ h in
      let r : e0 ≡ e = cc in
      subst (λ x. find x.0 (e0 ∷ d) ≡ some x.1) r (rw (keyed_nat.eq_same e0.0) refl)
  | inr (f, q) ↦
      let s : some (if ltb f.0 e0.0 then f else e0) ≡ some e =
        sym (first_entry-some e0 f d q) ∙ h in
      elim (Bool-cases (ltb f.0 e0.0)) [
        | inl l ↦
            let s' : some f ≡ some e = rw l at s in
            let r : f ≡ e = cc in
            let apart : keyed_nat.eq f.0 e0.0 ≡ false =
              eq_other f.0 e0.0 (λ t. omega (arith, ltb→lt f.0 e0.0 l, t)) in
            subst (λ x. find x.0 (e0 ∷ d) ≡ some x.1) r (rw apart (first_entry-find d f q))
        | inr l ↦
            let s' : some e0 ≡ some e = rw l at s in
            let r : e0 ≡ e = cc in
            subst (λ x. find x.0 (e0 ∷ d) ≡ some x.1) r (rw (keyed_nat.eq_same e0.0) refl)
      ]
]

-- An entry of the order that no node backs may go.
orphan-IsConsistent :
    (g : Inner) (s : ℕ) (k : Key)
    → IsConsistent g
    → find s g.order ≡ some k
    → ((n : Node) → find k g.map ≡ some n → n.seq ≢ s)
    → IsConsistent (record g { order = erase s g.order })
orphan-IsConsistent g s k c f free = record {
  distinct = c.distinct;
  order_distinct = erase-Distinct s g.order c.order_distinct;
  accounted = c.accounted;
  linked = λ j m h.
      let (a, b) = c.linked j m h in
      let apart : m.seq ≢ s = λ q.
        let t : some j ≡ some k = sym a ∙ ap (λ x. find x g.order) q ∙ f in
        let r : j ≡ k = cc in free m (subst (λ x. find x g.map ≡ some m) r h) q in
      (find-erase_other s m.seq g.order apart ∙ a, b);
  indexed = c.indexed;
}

pub evict_entry-none :
    (g : Inner) (s : ℕ) (k : Key)
    → find k g.map ≡ none
    → evict_entry g s k ≡ record g { order = erase s g.order }
unfolding evict_entry
evict_entry-none g s k e = rw (evict_entry, e) refl

pub evict_entry-some :
    (g : Inner) (s : ℕ) (k : Key) (n : Node)
    → find k g.map ≡ some n
    → evict_entry g s k
      ≡ (if n.seq == s then remove_key g k else record g { order = erase s g.order })
unfolding evict_entry
evict_entry-some g s k n e = rw (evict_entry, e) refl

-- What is not cached stays so.
abbrev pub Keeps : Key → Inner → Type 0
Keeps k g = IsConsistent g × (find k g.map ≡ none)

pub evict_entry-Keeps :
    (g : Inner) (s : ℕ) (k j : Key)
    → find s g.order ≡ some k
    → Keeps j g
    → Keeps j (evict_entry g s k)
evict_entry-Keeps g s k j f (c, h) = elim (Option-cases (find k g.map)) [
  | inl e ↦
      subst (Keeps j) (sym (evict_entry-none g s k e))
        (orphan-IsConsistent g s k c f (λ n e'. absurd cc), h)
  | inr (n, e) ↦
      subst (Keeps j) (sym (evict_entry-some g s k n e)) (elim (Bool-cases (n.seq == s)) [
        | inl at ↦ rw at (remove_key-IsConsistent g k c, remove_key_other g k j h)
        | inr off ↦ rw off (
          orphan-IsConsistent g s k c f (λ m e' q.
              let t : some m ≡ some n = sym e' ∙ e in
              let r : m ≡ n = cc in let u = (==_iff n.seq s).1 (ap (λ x. x.seq) (sym r) ∙ q) in cc),
          h,
        )
      ])
]

pub guarded :
    (test : Bool) (o : Option (ℕ × Key)) (x : ℕ × Key)
    → (if test then o else none) ≡ some x
    → o ≡ some x
guarded true o x h = h
guarded false o x h = absurd cc

pub evict_stop :
    (fuel blen : ℕ) (g : Inner)
    → (if ltb g.eff_cap (g.cur_bytes + blen) then first_entry g.order else none) ≡ none
    → evict (suc fuel) blen g ≡ g
unfolding evict
evict_stop fuel blen g e = rw (evict, e) refl

pub evict_step :
    (fuel blen : ℕ) (g : Inner) (x : ℕ × Key)
    → (if ltb g.eff_cap (g.cur_bytes + blen) then first_entry g.order else none) ≡ some x
    → evict (suc fuel) blen g ≡ evict fuel blen (evict_entry g x.0 x.1)
unfolding evict
evict_step fuel blen g x e = rw (evict, e) refl

pub evict-IsConsistent :
    (fuel blen : ℕ) (j : Key) (g : Inner)
    → IsConsistent g
    → find j g.map ≡ none
    → Keeps j (evict fuel blen g)
unfolding evict
evict-IsConsistent zero blen j g c h = (c, h)
evict-IsConsistent (suc fuel) blen j g c h =
    elim (Option-cases (if ltb g.eff_cap (g.cur_bytes + blen) then first_entry g.order else none)) [
      | inl e ↦ subst (Keeps j) (sym (evict_stop fuel blen g e)) (c, h)
      | inr (x, e) ↦
          let first : first_entry g.order ≡ some x =
            guarded (ltb g.eff_cap (g.cur_bytes + blen)) (first_entry g.order) x e in
          let (c', h') = evict_entry-Keeps g x.0 x.1 j (first_entry-find g.order x first) (c, h) in
          subst (Keeps j) (sym (evict_step fuel blen g x e))
            (evict-IsConsistent fuel blen j (evict_entry g x.0 x.1) c' h')
    ]
