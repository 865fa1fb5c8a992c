-- ===== src/Dict.antt =====
-- Finite maps as association lists: what the block cache uses of HashMap and BTreeMap.
use fuse_scrollfs.Prelude.{
  Bool, Bool-cases, List, Option, [], arith, false, if◌then◌else◌, inl, inr, length, none, refl,
  some, sym, true, ◌<◌, ◌∙◌, ◌∷◌, ◌≡◌, ◌≢◌, ◌≤◌, ◌⊎◌,
}
use mathlib.Core.Path.{subst}

pub record Keyed (K : Type 0) : Type 0 where
  pub eq : K → K → Bool
  pub eq_same : (a : K) → eq a a ≡ true
  pub eq_sound : (a b : K) → eq a b ≡ true → a ≡ b

abbrev pub Dict : Type 0 → Type 0 → Type 0
Dict K V = List (K × V)

module _ {K : Type 0} ⦃k : Keyed K⦄ where
  pub eq_other : (a b : K) → a ≢ b → k.eq a b ≡ false
  eq_other a b h = elim (Bool-cases (k.eq a b)) [
    | inl e ↦ absurd (h (k.eq_sound a b e))
    | inr e ↦ e
  ]

  pub eq-false_other : (a b : K) → k.eq a b ≡ false → b ≢ a
  eq-false_other a b e q =
      let t : k.eq a b ≡ true = subst (λ x. k.eq a x ≡ true) (sym q) (k.eq_same a) in cc

module _ {K V : Type 0} ⦃k : Keyed K⦄ where
  abbrev pub find : K → Dict K V → Option V
  find a [] = none
  find a ((b, v) ∷ d) = if k.eq a b then some v else find a d

  -- Every entry with the key goes.
  abbrev pub erase : K → Dict K V → Dict K V
  erase a [] = []
  erase a ((b, v) ∷ d) = let rest = erase a d in if k.eq a b then rest else (b, v) ∷ rest

  abbrev pub put : K → V → Dict K V → Dict K V
  put a v d = (a, v) ∷ erase a d

  -- No key stands twice.
  abbrev pub Distinct : Dict K V → Type 0
  Distinct [] = Unit
  Distinct ((a, v) ∷ d) = (find a d ≡ none) × Distinct d

  pub find-erase_same : (a : K) (d : Dict K V) → find a (erase a d) ≡ none
  find-erase_same a [] = refl
  find-erase_same a ((b, v) ∷ d) = elim (Bool-cases (k.eq a b)) [
    | inl e ↦ rw e (find-erase_same a d)
    | inr e ↦ rw (e, e) (find-erase_same a d)
  ]

  pub find-erase_other : (a b : K) (d : Dict K V) → b ≢ a → find b (erase a d) ≡ find b d
  find-erase_other a b [] n = refl
  find-erase_other a b ((c, v) ∷ d) n = elim (Bool-cases (k.eq a c)) [
    | inl e ↦ rw (e, eq_other b c (λ q. n (q ∙ sym (k.eq_sound a c e)))) (find-erase_other a b d n)
    | inr e ↦ rw e (elim (Bool-cases (k.eq b c)) [
      | inl f ↦ rw f refl
      | inr f ↦ rw f (find-erase_other a b d n)
    ])
  ]

  pub find-put_same : (a : K) (v : V) (d : Dict K V) → find a (put a v d) ≡ some v
  find-put_same a v d = rw (k.eq_same a) refl

  pub find-put_other : (a b : K) (v : V) (d : Dict K V) → b ≢ a → find b (put a v d) ≡ find b d
  find-put_other a b v d n = rw (eq_other b a n) (find-erase_other a b d n)

  -- A key that is found after an erasure was not the one erased.
  pub find-erase-some :
      (a b : K) (d : Dict K V) {v : V} → find b (erase a d) ≡ some v → (b ≢ a) × (find b d ≡ some v)
  find-erase-some a b d h = elim (Bool-cases (k.eq a b)) [
    | inl e ↦
        let q : find b (erase a d) ≡ none =
          subst (λ x. find x (erase a d) ≡ none) (k.eq_sound a b e) (find-erase_same a d) in
        absurd cc
    | inr e ↦ let n = eq-false_other a b e in (n, sym (find-erase_other a b d n) ∙ h)
  ]

  pub erase-Distinct : (a : K) (d : Dict K V) → Distinct d → Distinct (erase a d)
  erase-Distinct a [] h = tt
  erase-Distinct a ((b, v) ∷ d) h = elim (Bool-cases (k.eq a b)) [
    | inl e ↦ rw e (erase-Distinct a d h.1)
    | inr e ↦ rw e (find-erase_other a b d (eq-false_other a b e) ∙ h.0, erase-Distinct a d h.1)
  ]

  pub put-Distinct : (a : K) (v : V) (d : Dict K V) → Distinct d → Distinct (put a v d)
  put-Distinct a v d h = (find-erase_same a d, erase-Distinct a d h)

  length-erase_le : (a : K) (d : Dict K V) → length (erase a d) ≤ length d
  length-erase_le a [] = omega arith
  length-erase_le a ((b, v) ∷ d) = elim (Bool-cases (k.eq a b)) [
    | inl e ↦ rw e (omega (arith, length-erase_le a d))
    | inr e ↦ rw e (omega (arith, length-erase_le a d))
  ]

  pub length-erase-some :
      (a : K) (d : Dict K V) {v : V} → find a d ≡ some v → length (erase a d) < length d
  length-erase-some a [] h = absurd cc
  length-erase-some a ((b, v) ∷ d) h = elim (Bool-cases (k.eq a b)) [
    | inl e ↦ rw e (omega (arith, length-erase_le a d))
    | inr e ↦ rw e (omega (arith, length-erase-some a d (rw e at h)))
  ]

  -- What is found after a put is the new value, or was there before under another key.
  pub find-put-some :
      (a b : K) (v : V) (d : Dict K V) {w : V}
      → find b (put a v d) ≡ some w
      → ((b ≡ a) × (some v ≡ some w)) ⊎ ((b ≢ a) × (find b d ≡ some w))
  find-put-some a b v d h = elim (Bool-cases (k.eq b a)) [
    | inl e ↦ inl (k.eq_sound b a e, rw e at h)
    | inr e ↦ let f = find-erase-some a b d (rw e at h) in inr (f.0, f.1)
  ]
