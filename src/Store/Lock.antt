-- ===== src/Store/Lock.antt =====
-- crates/scrollz/src/store/lock.rs: the lock of a backing directory, taken at once or with a bounded
-- number of tries. The system calls are a parameter; `errno` 11 is EWOULDBLOCK.
use fuse_scrollfs.Prelude.{
  Bool, Option, false, if◌then◌else◌, ltb, none, some, suc, true, zero, ℕ, ◌==◌,
}
use fuse_scrollfs.Prelude.Exec.{Exec, ◌>>=◌}
use fuse_scrollfs.Prelude.Result.{
  Result, err, invalid_data, invalid_input, io_failure, not_found, ok, other_error, unexpected_eof,
  unsupported, would_block,
}

-- `open`, `flock` (none is success) and `sleep` on the state of the system.
pub record LockOs (S File : Type 0) : Type 0 where
  pub open_file : Exec S File
  pub flock : File → S → Option ℕ × S
  pub sleep : S → S

abbrev pub ewouldblock : ℕ
ewouldblock = 11

abbrev pub attempts : ℕ
attempts = 25

abbrev pub is_would_block : {A : Type 0} → Result A → Bool
is_would_block (ok a) = false
is_would_block (err would_block) = true
is_would_block (err invalid_data) = false
is_would_block (err invalid_input) = false
is_would_block (err not_found) = false
is_would_block (err unexpected_eof) = false
is_would_block (err unsupported) = false
is_would_block (err other_error) = false
is_would_block (err io_failure) = false

abbrev pub flock_result : {S File : Type 0} → File → Option ℕ × S → Result File × S
flock_result file (none, s) = (ok file, s)
flock_result file (some errno, s) =
    (err (if errno == ewouldblock then would_block else io_failure), s)

module _ {S File : Type 0} (os : LockOs S File) where
  unfoldable pub acquire_exclusive : Exec S File
  acquire_exclusive = os.open_file >>= λ file s. flock_result file (os.flock file s)

  -- `retry n` is the loop with `n` tries to go; it sleeps between two tries.
  unfoldable pub retry : ℕ → Exec S File
  retry zero s = (err would_block, s)
  retry (suc n) s =
      let r = acquire_exclusive s in
      let again = retry n (if ltb 0 n then os.sleep (r.1) else r.1) in
      if is_would_block (r.0) then again else r

  unfoldable pub acquire_exclusive_retry : Exec S File
  acquire_exclusive_retry = retry attempts
