-- ===== src/Frontend/FileBytes.antt =====
-- What crates/scrollz/src/rwfs.rs should answer a read with: the bytes of the file in order.
use fuse_scrollfs.Bytes.{Bytes}
use fuse_scrollfs.Bytes.Nth.{nth}
use fuse_scrollfs.Prelude.{
  Bool-cases, [], ap, append-nil, ap₂, arith, inl, inr, leb, length, min, refl, suc, sym, zero, ℕ,
  ◌++◌, ◌+◌, ◌-◌, ◌<◌, ◌∙◌, ◌∷◌, ◌≡◌, ◌≤◌,
}

unfoldable pub file_bytes : (ℕ → ℕ) → ℕ → ℕ → Bytes
file_bytes f start zero = []
file_bytes f start (suc n) = f start ∷ file_bytes f (suc start) n

-- The bytes from `start` up to `end`.
abbrev pub span_bytes : (ℕ → ℕ) → ℕ → ℕ → Bytes
span_bytes f start end = file_bytes f start (end - start)

pub file_bytes_ext :
    (f : ℕ → ℕ) (n start : ℕ) (xs : Bytes)
    → length xs ≡ n
    → ((i : ℕ) → i < n → nth xs i ≡ f (start + i))
    → xs ≡ file_bytes f start n
unfolding file_bytes
file_bytes_ext f zero start [] e h = refl
file_bytes_ext f zero start (x ∷ xs) e h = absurd (omega (arith, e))
file_bytes_ext f (suc n) start [] e h = absurd (omega (arith, e))
file_bytes_ext f (suc n) start (x ∷ xs) e h =
    let head : x ≡ f start = h 0 (omega arith) ∙ ap f (omega arith) in
    ap₂ (λ y ys. y ∷ ys) head
      (file_bytes_ext f n (suc start) xs (omega (arith, e))
        (λ i l. h (suc i) (omega (arith, l)) ∙ ap f (omega arith)))

pub file_bytes-append :
    (f : ℕ → ℕ) (m n start : ℕ)
    → file_bytes f start m ++ file_bytes f (start + m) n ≡ file_bytes f start (m + n)
unfolding file_bytes
file_bytes-append f zero n start =
    let s : start + 0 ≡ start = omega arith in
    let t : n ≡ 0 + n = omega arith in ap (λ p. file_bytes f p n) s ∙ ap (file_bytes f start) t
file_bytes-append f (suc m) n start =
    let s : start + suc m ≡ suc start + m = omega arith in
    let t : suc (m + n) ≡ suc m + n = omega arith in
    let rest =
      ap (λ p. file_bytes f (suc start) m ++ file_bytes f p n) s
      ∙ file_bytes-append f m n (suc start) in
    ap (λ r. f start ∷ r) rest ∙ ap (file_bytes f start) t

-- A range cut at a place that may lie behind its end.
pub span_bytes-split :
    (f : ℕ → ℕ) (a c d : ℕ)
    → a ≤ c
    → span_bytes f a (min d c) ++ span_bytes f c d ≡ span_bytes f a d
unfolding file_bytes
span_bytes-split f a c d l = elim (Bool-cases (leb d c)) [
  | inl h ↦
      let e : min d c ≡ d = ground (arith, h) in
      let n : d - c ≡ 0 = ground (arith, h) in rw (e, n) (append-nil (span_bytes f a d))
  | inr h ↦
      let e : min d c ≡ c = ground (arith, h) in
      let n : (c - a) + (d - c) ≡ d - a = ground (arith, h, l) in
      let at : a + (c - a) ≡ c = omega (arith, l) in
      rw e (
        ap (λ s. span_bytes f a c ++ file_bytes f s (d - c)) (sym at)
        ∙ file_bytes-append f (c - a) (d - c) a
        ∙ ap (file_bytes f a) n)
]
