-- ===== src/Prelude/Lists.antt =====
-- Lists measured and cut by native numbers, under the library's names.
use fuse_scrollfs.Prelude.Tests.{Bool-cases, if◌then◌else◌, leb, ltb, ltb→lt}
use Prim.Native.Nat.{min, suc, zero, ℕ, ◌+◌, ◌-◌, ◌<◌, ◌≤◌}
use mathlib.Core.Logic.{inl, inr, ◌≢◌}
use mathlib.Core.List.{List, [], ◌++◌, ◌∷◌}
use mathlib.Core.Option.{Option, none, some}
use mathlib.Core.Path.{ap, refl, sym, ◌∙◌, ◌≡◌}
use native.Mathlib.Omega.{arith}

module _ {ℓ} {A : Type ℓ} where
  abbrev pub length : List A → ℕ
  length [] = 0
  length (x ∷ xs) = suc (length xs)

  abbrev pub get_elem? : List A → ℕ → Option A
  get_elem? [] i = none
  get_elem? (x ∷ xs) zero = some x
  get_elem? (x ∷ xs) (suc i) = get_elem? xs i

  -- A write out of bounds changes nothing.
  abbrev pub set : List A → ℕ → A → List A
  set [] i v = []
  set (x ∷ xs) zero v = v ∷ xs
  set (x ∷ xs) (suc i) v = x ∷ set xs i v

  abbrev pub take : ℕ → List A → List A
  take zero xs = []
  take (suc n) [] = []
  take (suc n) (x ∷ xs) = x ∷ take n xs

  abbrev pub drop : ℕ → List A → List A
  drop zero xs = xs
  drop (suc n) [] = []
  drop (suc n) (x ∷ xs) = drop n xs

  abbrev pub replicate : ℕ → A → List A
  replicate zero a = []
  replicate (suc n) a = a ∷ replicate n a

module _ {ℓ} {A : Type ℓ} where
  pub length-append : (xs ys : List A) → length (xs ++ ys) ≡ length xs + length ys
  length-append [] ys = omega arith
  length-append (x ∷ xs) ys = omega (arith, length-append xs ys)

  pub length-take : (n : ℕ) (xs : List A) → length (take n xs) ≡ min n (length xs)
  length-take zero xs = omega arith
  length-take (suc n) [] = omega arith
  length-take (suc n) (x ∷ xs) = omega (arith, length-take n xs)

  pub length-drop : (n : ℕ) (xs : List A) → length (drop n xs) ≡ length xs - n
  length-drop zero xs = omega arith
  length-drop (suc n) [] = omega arith
  length-drop (suc n) (x ∷ xs) = omega (arith, length-drop n xs)

  pub length-replicate : (n : ℕ) (a : A) → length (replicate n a) ≡ n
  length-replicate zero a = refl
  length-replicate (suc n) a = ap suc (length-replicate n a)

  pub length-set : (xs : List A) (i : ℕ) (v : A) → length (set xs i v) ≡ length xs
  length-set [] i v = refl
  length-set (x ∷ xs) zero v = refl
  length-set (x ∷ xs) (suc i) v = ap suc (length-set xs i v)

  pub take-append-drop : (n : ℕ) (xs : List A) → take n xs ++ drop n xs ≡ xs
  take-append-drop zero xs = refl
  take-append-drop (suc n) [] = refl
  take-append-drop (suc n) (x ∷ xs) = ap (λ r. x ∷ r) (take-append-drop n xs)

  -- The whole list is its own prefix.
  pub take_all : (n : ℕ) (xs : List A) → length xs ≤ n → take n xs ≡ xs
  take_all zero [] h = refl
  take_all zero (x ∷ xs) h = absurd (omega arith)
  take_all (suc n) [] h = refl
  take_all (suc n) (x ∷ xs) h = ap (λ r. x ∷ r) (take_all n xs (omega arith))

  -- A cut of two parts.
  pub take-add : (m n : ℕ) (xs : List A) → take (m + n) xs ≡ take m xs ++ take n (drop m xs)
  take-add zero n xs = ap (λ k. take k xs) (omega arith)
  take-add (suc m) n [] = take_all (suc m + n) [] (omega arith) ∙ sym (take_all n [] (omega arith))
  take-add (suc m) n (x ∷ xs) =
      let e : suc m + n ≡ suc (m + n) = omega arith in
      ap (λ k. take k (x ∷ xs)) e ∙ ap (λ r. x ∷ r) (take-add m n xs)

  pub drop_all : (n : ℕ) (xs : List A) → length xs ≤ n → drop n xs ≡ []
  drop_all zero [] h = refl
  drop_all zero (x ∷ xs) h = absurd (omega arith)
  drop_all (suc n) [] h = refl
  drop_all (suc n) (x ∷ xs) h = drop_all n xs (omega arith)

  -- A prefix that ends inside the left list.
  pub take-append_left : (n : ℕ) (xs ys : List A) → n ≤ length xs → take n (xs ++ ys) ≡ take n xs
  take-append_left zero xs ys h = refl
  take-append_left (suc n) [] ys h = absurd (omega arith)
  take-append_left (suc n) (x ∷ xs) ys h = ap (λ r. x ∷ r) (take-append_left n xs ys (omega arith))

  pub drop-append_left :
      (n : ℕ) (xs ys : List A) → n ≤ length xs → drop n (xs ++ ys) ≡ drop n xs ++ ys
  drop-append_left zero xs ys h = refl
  drop-append_left (suc n) [] ys h = absurd (omega arith)
  drop-append_left (suc n) (x ∷ xs) ys h = drop-append_left n xs ys (omega arith)

  -- A cut exactly at the joint, its place given by an equation.
  pub take-append_at : (n : ℕ) (xs ys : List A) → n ≡ length xs → take n (xs ++ ys) ≡ xs
  take-append_at zero [] ys h = refl
  take-append_at zero (x ∷ xs) ys h = absurd (omega arith)
  take-append_at (suc n) [] ys h = absurd (omega arith)
  take-append_at (suc n) (x ∷ xs) ys h = ap (λ r. x ∷ r) (take-append_at n xs ys (omega arith))

  pub drop-append_at : (n : ℕ) (xs ys : List A) → n ≡ length xs → drop n (xs ++ ys) ≡ ys
  drop-append_at zero [] ys h = refl
  drop-append_at zero (x ∷ xs) ys h = absurd (omega arith)
  drop-append_at (suc n) [] ys h = absurd (omega arith)
  drop-append_at (suc n) (x ∷ xs) ys h = drop-append_at n xs ys (omega arith)

  -- A cut inside the right list.
  pub drop-append_right :
      (n m : ℕ) (xs ys : List A) → n ≡ length xs + m → drop n (xs ++ ys) ≡ drop m ys
  drop-append_right n m [] ys h = let e : n ≡ m = omega arith in ap (λ k. drop k ys) e
  drop-append_right zero m (x ∷ xs) ys h = absurd (omega arith)
  drop-append_right (suc n) m (x ∷ xs) ys h = drop-append_right n m xs ys (omega arith)

  pub drop-drop : (m n : ℕ) (xs : List A) → drop m (drop n xs) ≡ drop (n + m) xs
  drop-drop m zero xs = let e : m ≡ 0 + m = omega arith in ap (λ k. drop k xs) e
  drop-drop zero (suc n) [] = sym (drop_all (suc n + 0) [] (omega arith))
  drop-drop (suc m) (suc n) [] = sym (drop_all (suc n + suc m) [] (omega arith))
  drop-drop m (suc n) (x ∷ xs) =
      let e : suc (n + m) ≡ suc n + m = omega arith in
      drop-drop m n xs ∙ ap (λ k. drop k (x ∷ xs)) e

  -- A prefix of a prefix.
  pub take-take : (m n : ℕ) (xs : List A) → m ≤ n → take m (take n xs) ≡ take m xs
  take-take zero n xs h = refl
  take-take (suc m) zero xs h = absurd (omega arith)
  take-take (suc m) (suc n) [] h = refl
  take-take (suc m) (suc n) (x ∷ xs) h = ap (λ r. x ∷ r) (take-take m n xs (omega arith))

  pub drop-take : (m n : ℕ) (xs : List A) → drop m (take (m + n) xs) ≡ take n (drop m xs)
  drop-take zero n xs = let e : 0 + n ≡ n = omega arith in ap (λ k. take k xs) e
  drop-take (suc m) n xs =
      let e : suc m + n ≡ suc (m + n) = omega arith in
      ap (λ k. drop (suc m) (take k xs)) e ∙ drop-take_suc m n xs (drop-take m n)
    where
      drop-take_suc :
          (m n : ℕ) (xs : List A)
          → ((ys : List A) → drop m (take (m + n) ys) ≡ take n (drop m ys))
          → drop (suc m) (take (suc (m + n)) xs) ≡ take n (drop (suc m) xs)
      drop-take_suc m zero [] ih = refl
      drop-take_suc m (suc n) [] ih = refl
      drop-take_suc m n (x ∷ xs) ih = ih xs

  pub get_elem?-append_left :
      (xs ys : List A) (i : ℕ) → i < length xs → get_elem? (xs ++ ys) i ≡ get_elem? xs i
  get_elem?-append_left [] ys i h = absurd (omega arith)
  get_elem?-append_left (x ∷ xs) ys zero h = refl
  get_elem?-append_left (x ∷ xs) ys (suc i) h = get_elem?-append_left xs ys i (omega arith)

  pub get_elem?-append_at :
      (xs : List A) (y : A) (i : ℕ) → i ≡ length xs → get_elem? (xs ++ y ∷ []) i ≡ some y
  get_elem?-append_at [] y zero h = refl
  get_elem?-append_at [] y (suc i) h = absurd (omega arith)
  get_elem?-append_at (x ∷ xs) y zero h = absurd (omega arith)
  get_elem?-append_at (x ∷ xs) y (suc i) h = get_elem?-append_at xs y i (omega arith)

  pub get_elem?-short : (xs : List A) (i : ℕ) → length xs ≤ i → get_elem? xs i ≡ none
  get_elem?-short [] i h = refl
  get_elem?-short (x ∷ xs) zero h = absurd (omega (arith, h))
  get_elem?-short (x ∷ xs) (suc i) h = get_elem?-short xs i (omega (arith, h))

  pub get_elem?-append_other :
      (xs : List A) (y : A) (i : ℕ) → i ≢ length xs → get_elem? (xs ++ y ∷ []) i ≡ get_elem? xs i
  get_elem?-append_other xs y i ne = elim (Bool-cases (ltb i (length xs))) [
    | inl l ↦ get_elem?-append_left xs (y ∷ []) i (ltb→lt i (length xs) l)
    | inr l ↦
        let past : length xs + 1 ≤ i = ground (arith, l, ne) in
        get_elem?-short (xs ++ y ∷ []) i (omega (arith, length-append xs (y ∷ []), past))
        ∙ sym (get_elem?-short xs i (omega (arith, past)))
  ]

  pub get_elem?-take :
      (k i : ℕ) (xs : List A) → get_elem? (take k xs) i ≡ (if leb k i then none else get_elem? xs i)
  get_elem?-take zero zero xs = refl
  get_elem?-take zero (suc i) xs = ground arith
  get_elem?-take (suc k) i [] = ground arith
  get_elem?-take (suc k) zero (x ∷ xs) = ground arith
  get_elem?-take (suc k) (suc i) (x ∷ xs) = ground (arith, get_elem?-take k i xs)

  pub get_elem?-set_same :
      (xs : List A) (i : ℕ) (v : A) → i < length xs → get_elem? (set xs i v) i ≡ some v
  get_elem?-set_same [] i v h = absurd (omega arith)
  get_elem?-set_same (x ∷ xs) zero v h = refl
  get_elem?-set_same (x ∷ xs) (suc i) v h = get_elem?-set_same xs i v (omega arith)

  pub get_elem?-set_other :
      (xs : List A) (i k : ℕ) (v : A) → k ≢ i → get_elem? (set xs i v) k ≡ get_elem? xs k
  get_elem?-set_other [] i k v h = refl
  get_elem?-set_other (x ∷ xs) zero zero v h = absurd (h refl)
  get_elem?-set_other (x ∷ xs) zero (suc k) v h = refl
  get_elem?-set_other (x ∷ xs) (suc i) zero v h = refl
  get_elem?-set_other (x ∷ xs) (suc i) (suc k) v h =
      get_elem?-set_other xs i k v (λ e. h (omega (arith, e)))
