-- ===== src/Archive/Updater/Steps.antt =====
-- The updater's writes and barriers on an honest device, as rules for what follows them.
use fuse_scrollfs.Archive.Updater.{Updater, append_bytes, io_sync, io_write}
use fuse_scrollfs.BlockIo.FaultIo.{FaultIo, fault_block_io, sync, write_at}
use fuse_scrollfs.BlockIo.FaultIo.Crash.{
  IsHonest, Synced, Unchanged, Wrote, sync_outcome, write_at_outcome,
}
use fuse_scrollfs.Bytes.{Bytes}
use fuse_scrollfs.Prelude.{length, ℕ, ◌+◌}
use fuse_scrollfs.Prelude.Exec.{Ensures, Exec, continue_with, continue_with_assoc, ◌>>=◌}
use fuse_scrollfs.Prelude.Result.{Result, err, ok}

module _ {A : Type 0} (R : A → Updater FaultIo → Type 0) (E : Updater FaultIo → Type 0) where
  after_write :
      (u : Updater FaultIo) (off : ℕ) (bytes : Bytes) (f : Unit → Exec (Updater FaultIo) A)
      (p : Result (Unit {0}) × FaultIo)
      → Ensures (λ _ io. Wrote u.io off bytes io) (λ io. Unchanged u.io io) p
      → ((io : FaultIo) → Wrote u.io off bytes io → Ensures R E (f tt (record u { io = io })))
      → ((io : FaultIo) → Unchanged u.io io → E (record u { io = io }))
      → Ensures R E (continue_with f (p.0, record u { io = p.1 }))
  after_write u off bytes f (ok a, io) h k e = k io h
  after_write u off bytes f (err x, io) h k e = e io h

  pub io_write-bind :
      (u : Updater FaultIo) (off : ℕ) (bytes : Bytes) (f : Unit → Exec (Updater FaultIo) A)
      → IsHonest u.io
      → ((io : FaultIo) → Wrote u.io off bytes io → Ensures R E (f tt (record u { io = io })))
      → ((io : FaultIo) → Unchanged u.io io → E (record u { io = io }))
      → Ensures R E ((io_write off bytes >>= f) u)
  unfolding io_write fault_block_io
  io_write-bind u off bytes f h k e =
      after_write u off bytes f (write_at u.io off bytes) (write_at_outcome u.io off bytes h) k e

  after_sync :
      (u : Updater FaultIo) (f : Unit → Exec (Updater FaultIo) A) (p : Result (Unit {0}) × FaultIo)
      → Ensures (λ _ io. Synced u.io io) (λ io. Unchanged u.io io) p
      → ((io : FaultIo) → Synced u.io io → Ensures R E (f tt (record u { io = io })))
      → ((io : FaultIo) → Unchanged u.io io → E (record u { io = io }))
      → Ensures R E (continue_with f (p.0, record u { io = p.1 }))
  after_sync u f (ok a, io) h k e = k io h
  after_sync u f (err x, io) h k e = e io h

  pub io_sync-bind :
      (u : Updater FaultIo) (f : Unit → Exec (Updater FaultIo) A)
      → IsHonest u.io
      → ((io : FaultIo) → Synced u.io io → Ensures R E (f tt (record u { io = io })))
      → ((io : FaultIo) → Unchanged u.io io → E (record u { io = io }))
      → Ensures R E ((io_sync >>= f) u)
  unfolding io_sync fault_block_io
  io_sync-bind u f h k e = after_sync u f (sync u.io) (sync_outcome u.io h) k e

  -- The cursor moves after a successful write only.
  pub append_bytes-bind :
      (u : Updater FaultIo) (bytes : Bytes) (f : Unit → Exec (Updater FaultIo) A)
      → IsHonest u.io
      → ((io : FaultIo)
          → Wrote u.io u.write_cursor bytes io
          → Ensures R E (f tt (record u { io = io; write_cursor = u.write_cursor + length bytes })))
      → ((io : FaultIo) → Unchanged u.io io → E (record u { io = io }))
      → Ensures R E ((append_bytes bytes >>= f) u)
  unfolding append_bytes
  append_bytes-bind u bytes f h k e =
      let advance : Unit {0} → Exec (Updater FaultIo) (Unit {0}) =
        λ _ v. (ok tt, record v { write_cursor = u.write_cursor + length bytes }) in
      rw (continue_with_assoc f advance (io_write u.write_cursor bytes u))
        (io_write-bind u u.write_cursor bytes (λ a. advance a >>= f) h k e)
