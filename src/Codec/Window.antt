-- ===== src/Codec/Window.antt =====
-- The window that crates/scrollz/src/core/codec.rs asks of long distance matching.
use fuse_scrollfs.Bytes.{u32_mod}
use fuse_scrollfs.Codec.{
  bit_length, decompress_window_log_max, ldm_threshold, sealed, window_log_for,
}
use fuse_scrollfs.Prelude.{
  Bool-cases, ap, arith, inl, inr, leb, leb-false, min, refl, suc, true, zero, ℕ, ◌*◌, ◌+◌, ◌-◌,
  ◌/◌, ◌<◌, ◌==◌, ◌^◌, ◌∙◌, ◌≡◌, ◌≤◌, ◌⊎◌,
}
use mathlib.Core.Int.{ℤ}
use mathlib.Core.Path.{subst}
use native.Mathlib.Nat.{pow-le-pow_right, pow-suc, pow-zero}

pow_next : (k : ℕ) → 2 ^ (1 + k) ≡ 2 ^ k + 2 ^ k
pow_next k = let e : 1 + k ≡ suc k = omega arith in ap (λ j. 2 ^ j) e ∙ omega (arith, pow-suc 2 k)

bit_length-covers : (fuel n : ℕ) → n < 2 ^ fuel → n < 2 ^ bit_length fuel n
bit_length-covers zero n h = h
bit_length-covers (suc fuel) n h = elim (Bool-cases (n == 0)) [
  | inl empty ↦ rw empty (ground (arith, empty))
  | inr some_bits ↦
      let half : n / 2 < 2 ^ fuel = omega (arith, h, pow-suc 2 fuel) in
      rw some_bits
        (omega (arith, bit_length-covers fuel (n / 2) half, pow_next (bit_length fuel (n / 2))))
]

bit_length-zero : (fuel : ℕ) → bit_length fuel 0 ≡ 0
bit_length-zero zero = refl
bit_length-zero (suc fuel) = refl

bit_length-tight : (fuel n : ℕ) → 0 < n → 2 ^ bit_length fuel n ≤ 2 * n
bit_length-tight zero n h = omega (arith, h, pow-zero 2)
bit_length-tight (suc fuel) n h = elim (Bool-cases (n == 0)) [
  | inl empty ↦ absurd (ground (arith, empty, h))
  | inr some_bits ↦ rw some_bits (elim (Bool-cases (n / 2 == 0)) [
    | inl one_bit ↦
        let q : n / 2 ≡ 0 = ground (arith, one_bit) in
        let r : bit_length fuel (n / 2) ≡ 0 = ap (bit_length fuel) q ∙ bit_length-zero fuel in
        let s : 2 ^ bit_length fuel (n / 2) ≡ 1 = ap (λ k. 2 ^ k) r in
        omega (arith, s, h, pow_next (bit_length fuel (n / 2)))
    | inr more_bits ↦
        let p : 0 < n / 2 = ground (arith, more_bits) in
        omega (arith, bit_length-tight fuel (n / 2) p, pow_next (bit_length fuel (n / 2)))
  ])
]

-- The smallest window that holds a chunk, or the decoder's limit where a chunk is larger.
abbrev pub IsWindow : ℕ → ℕ → Type 0
IsWindow chunk_size w =
    ((w ≤ decompress_window_log_max) × (chunk_size ≤ 2 ^ w) × (2 ^ w < 2 * chunk_size))
    ⊎ ((w ≡ decompress_window_log_max) × (2 ^ decompress_window_log_max < chunk_size))

clamped-IsWindow :
    (chunk_size b : ℕ)
    → 1 < chunk_size
    → chunk_size - 1 < 2 ^ b
    → 2 ^ b ≤ 2 * (chunk_size - 1)
    → IsWindow chunk_size (min b decompress_window_log_max)
clamped-IsWindow chunk_size b l covers tight = elim (Bool-cases (leb b decompress_window_log_max)) [
  | inl fits ↦
      let small : b ≤ decompress_window_log_max = ground (arith, fits) in
      let e : b ≡ min b decompress_window_log_max = omega (arith, small) in
      subst (IsWindow chunk_size) e (inl (small, omega (arith, covers, l), omega (arith, tight, l)))
  | inr large ↦
      let past : 28 ≤ b = ground (arith, large) in
      let two : 2 ^ 28 ≤ 2 ^ b = pow-le-pow_right {n = 2} (omega arith) past in
      inr (omega (arith, past), omega (arith, two, tight, l))
]

-- For a chunk size above the threshold of 8 MiB and below 2^32, the sealing path turns long
-- distance matching on and asks for the smallest window that holds a chunk, or for the decoder's
-- limit of 2^27 where a chunk is larger than that.
pub sealed-IsWindow :
    (level : ℤ) (chunk_size : ℕ)
    → ldm_threshold < chunk_size
    → chunk_size < u32_mod
    → ((sealed level chunk_size).enable_ldm ≡ true)
      × IsWindow chunk_size (sealed level chunk_size).window_log
unfolding sealed window_log_for
sealed-IsWindow level chunk_size l h =
    let n = chunk_size - 1 in
    rw (leb-false chunk_size ldm_threshold l) (
      refl,
      clamped-IsWindow chunk_size (bit_length 32 n) (omega (arith, l))
          (bit_length-covers 32 n (omega (arith, h))) (bit_length-tight 32 n (omega (arith, l))),
    )
