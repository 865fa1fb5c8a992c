-- ===== src/Bytes/Nth.antt =====
-- The byte at a place, zero past the end: how a file is read, whose holes are zeros.
use fuse_scrollfs.Bytes.{Bytes, fit, slice, splice}
use fuse_scrollfs.Prelude.{
  Bool-cases, [], ap, arith, drop, if◌then◌else◌, inl, inr, length, length-append, length-drop,
  length-replicate, length-take, ltb, refl, replicate, suc, take, zero, ℕ, ◌++◌, ◌+◌, ◌-◌, ◌∙◌, ◌∷◌,
  ◌≡◌, ◌≤◌,
}

abbrev pub nth : Bytes → ℕ → ℕ
nth [] i = 0
nth (b ∷ bs) zero = b
nth (b ∷ bs) (suc i) = nth bs i

pub nth_beyond : (bs : Bytes) (i : ℕ) → length bs ≤ i → nth bs i ≡ 0
nth_beyond [] i h = refl
nth_beyond (b ∷ bs) zero h = absurd (omega arith)
nth_beyond (b ∷ bs) (suc i) h = nth_beyond bs i (omega arith)

pub nth-append :
    (xs ys : Bytes) (i : ℕ)
    → nth (xs ++ ys) i ≡ (if ltb i (length xs) then nth xs i else nth ys (i - length xs))
nth-append [] ys i = ground arith
nth-append (x ∷ xs) ys zero = ground arith
nth-append (x ∷ xs) ys (suc i) = ground (arith, nth-append xs ys i)

pub nth-take : (n : ℕ) (xs : Bytes) (i : ℕ) → nth (take n xs) i ≡ (if ltb i n then nth xs i else 0)
nth-take zero xs i = ground arith
nth-take (suc n) [] i = ground arith
nth-take (suc n) (x ∷ xs) zero = ground arith
nth-take (suc n) (x ∷ xs) (suc i) = ground (arith, nth-take n xs i)

pub nth-drop : (n : ℕ) (xs : Bytes) (i : ℕ) → nth (drop n xs) i ≡ nth xs (n + i)
nth-drop zero xs i = ap (nth xs) (omega arith)
nth-drop (suc n) [] i = refl
nth-drop (suc n) (x ∷ xs) i =
    let e : suc (n + i) ≡ suc n + i = omega arith in nth-drop n xs i ∙ ap (nth (x ∷ xs)) e

pub nth-replicate : (n i : ℕ) → nth (replicate n 0) i ≡ 0
nth-replicate zero i = refl
nth-replicate (suc n) zero = refl
nth-replicate (suc n) (suc i) = nth-replicate n i

pub nth-fit : (n : ℕ) (xs : Bytes) (i : ℕ) → nth (fit n xs) i ≡ (if ltb i n then nth xs i else 0)
nth-fit n xs i =
    let zeros : Bytes = replicate (n - length xs) 0 in
    ground (
      arith,
      nth-take n (xs ++ zeros) i,
      nth-append xs zeros i,
      nth-replicate (n - length xs) (i - length xs),
      nth_beyond xs i,
    )

pub length-fit : (n : ℕ) (xs : Bytes) → length (fit n xs) ≡ n
length-fit n xs = omega (
  arith,
  length-take n (xs ++ replicate (n - length xs) 0),
  length-append xs (replicate (n - length xs) 0),
  length-replicate {A = ℕ} (n - length xs) 0,
)

pub nth-slice :
    (off n : ℕ) (xs : Bytes) (i : ℕ)
    → nth (slice off n xs) i ≡ (if ltb i n then nth xs (off + i) else 0)
nth-slice off n xs i = ground (arith, nth-take n (drop off xs) i, nth-drop off xs i)

-- What a copy into a buffer changes.
pub nth-splice :
    (xs ys : Bytes) (p i : ℕ)
    → p + length ys ≤ length xs
    → nth (splice xs p ys) i
      ≡ (if ltb i p then nth xs i else if ltb i (p + length ys) then nth ys (i - p) else nth xs i)
nth-splice xs ys p i h =
    let back = drop (p + length ys) xs in
    let k = i - (p + length ys) in
    elim (Bool-cases (ltb i (p + length ys))) [
      | inl below ↦ ground (
        arith,
        nth-append (take p xs ++ ys) back i,
        nth-append (take p xs) ys i,
        length-append (take p xs) ys,
        length-take p xs,
        nth-take p xs i,
      )
      | inr above ↦
          let e : p + length ys + k ≡ i = ground (arith, above) in
          let tail : nth back k ≡ nth xs i = nth-drop (p + length ys) xs k ∙ ap (nth xs) e in
          let n : length (take p xs ++ ys) ≡ p + length ys =
            omega (arith, length-append (take p xs) ys, length-take p xs) in
          let q : k ≡ i - length (take p xs ++ ys) = omega (arith, n) in
          ground (arith, nth-append (take p xs ++ ys) back i, n, tail, ap (nth back) q)
    ]

pub length-splice :
    (xs ys : Bytes) (p : ℕ) → p + length ys ≤ length xs → length (splice xs p ys) ≡ length xs
length-splice xs ys p h = omega (
  arith,
  length-append (take p xs ++ ys) (drop (p + length ys) xs),
  length-append (take p xs) ys,
  length-take p xs,
  length-drop (p + length ys) xs,
)
