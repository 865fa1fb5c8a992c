-- ===== src/Store/LockRetry.antt =====
-- The bounded retry of the lock: what is tried, and what comes of it.
use fuse_scrollfs.Prelude.{Bool, arith, false, ltb, refl, suc, true, zero, ℕ, ◌<◌, ◌≡◌}
use fuse_scrollfs.Prelude.Result.{err, would_block}
use fuse_scrollfs.Store.Lock.{
  LockOs, acquire_exclusive, acquire_exclusive_retry, attempts, is_would_block, retry,
}

module _ {S File : Type 0} (os : LockOs S File) where
  -- The state that try `j` starts from when all before it found the lock taken.
  abbrev pub before_try : ℕ → S → S
  before_try zero s = s
  before_try (suc j) s = before_try j (os.sleep ((acquire_exclusive os s).1))

  abbrev pub blocked : ℕ → S → Bool
  blocked j s = is_would_block ((acquire_exclusive os (before_try j s)).0)

  retry-first :
      (n j : ℕ) (s : S)
      → j < n
      → ((i : ℕ) → i < j → blocked i s ≡ true)
      → blocked j s ≡ false
      → retry os n s ≡ acquire_exclusive os (before_try j s)
  unfolding retry
  retry-first zero j s l h f = absurd (omega (arith, l))
  retry-first (suc n) zero s l h f = rw f refl
  retry-first (suc n) (suc j) s l h f =
      let taken : blocked 0 s ≡ true = h 0 (omega arith) in
      let more_tries : ltb 0 n ≡ true = ground (arith, l) in
      rw (taken, more_tries)
        (retry-first n j (os.sleep ((acquire_exclusive os s).1)) (omega (arith, l))
          (λ i k. h (suc i) (omega (arith, k))) f)

  retry-none :
      (n : ℕ) (s : S) → ((i : ℕ) → i < n → blocked i s ≡ true) → (retry os n s).0 ≡ err would_block
  unfolding retry
  retry-none zero s h = refl
  retry-none (suc zero) s h = let taken : blocked 0 s ≡ true = h 0 (omega arith) in rw taken refl
  retry-none (suc (suc n)) s h =
      let taken : blocked 0 s ≡ true = h 0 (omega arith) in
      let more_tries : ltb 0 (suc n) ≡ true = ground arith in
      rw (taken, more_tries)
        (retry-none (suc n) (os.sleep ((acquire_exclusive os s).1))
          (λ i k. h (suc i) (omega (arith, k))))

  -- If one of the 25 tries does not find the lock taken and all before it do,
  -- acquire_exclusive_retry gives back what that try gives, a lock or another error, after one
  -- sleep for each try before it.
  pub acquire_exclusive_retry-first :
      (j : ℕ) (s : S)
      → j < attempts
      → ((i : ℕ) → i < j → blocked i s ≡ true)
      → blocked j s ≡ false
      → acquire_exclusive_retry os s ≡ acquire_exclusive os (before_try j s)
  unfolding acquire_exclusive_retry
  acquire_exclusive_retry-first j s l h f = retry-first attempts j s l h f

  -- If each of the 25 tries finds the lock taken, acquire_exclusive_retry ends with the error
  -- WouldBlock.
  pub acquire_exclusive_retry-would_block :
      (s : S)
      → ((i : ℕ) → i < attempts → blocked i s ≡ true)
      → (acquire_exclusive_retry os s).0 ≡ err would_block
  unfolding acquire_exclusive_retry
  acquire_exclusive_retry-would_block s h = retry-none attempts s h
