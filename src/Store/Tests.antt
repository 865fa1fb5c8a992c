-- ===== src/Store/Tests.antt =====
-- A lock that another process holds for a while, and one that it never lets go.
-- The state is how many sleeps it holds it for.
use fuse_scrollfs.Prelude.{
  arith, if◌then◌else◌, none, refl, some, suc, true, zero, ℕ, ◌+◌, ◌-◌, ◌<◌, ◌==◌, ◌≡◌,
}
use fuse_scrollfs.Prelude.Result.{err, ok, would_block}
use fuse_scrollfs.Store.Lock.{LockOs, acquire_exclusive, acquire_exclusive_retry}
use fuse_scrollfs.Store.LockRetry.{
  acquire_exclusive_retry-first, acquire_exclusive_retry-would_block, before_try, blocked,
}

abbrev busy : LockOs ℕ ℕ
busy = record {
  open_file = λ s. (ok 5, s);
  flock = λ file s. (if s == 0 then none else some 11, s);
  sleep = λ s. s - 1;
}

busy_three : (i : ℕ) → i < 3 → blocked busy i 3 ≡ true
unfolding acquire_exclusive
busy_three zero l = refl
busy_three (suc zero) l = refl
busy_three (suc (suc zero)) l = refl
busy_three (suc (suc (suc i))) l = absurd (omega (arith, l))

acquire_exclusive_retry-first_example :
    acquire_exclusive_retry busy 3 ≡ acquire_exclusive busy (before_try busy 3 3)
unfolding acquire_exclusive
acquire_exclusive_retry-first_example =
    acquire_exclusive_retry-first busy 3 3 (omega arith) busy_three refl

abbrev taken : LockOs ℕ ℕ
taken = record { open_file = λ s. (ok 5, s); flock = λ file s. (some 11, s); sleep = λ s. s + 1 }

taken_always : (i s : ℕ) → blocked taken i s ≡ true
unfolding acquire_exclusive
taken_always i s = refl

acquire_exclusive_retry-would_block_example : (acquire_exclusive_retry taken 0).0 ≡ err would_block
acquire_exclusive_retry-would_block_example =
    acquire_exclusive_retry-would_block taken 0 (λ i l. taken_always i 0)
