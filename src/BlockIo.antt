-- ===== src/BlockIo.antt =====
-- crates/scrollz/src/blockio.rs: the trait `BlockIo`, positioned reads and writes and the barrier.
-- Methods that change the device return it; `&self` with interior mutability in the source.
pub mod FaultIo
use fuse_scrollfs.Bytes.{Bytes}
use fuse_scrollfs.Prelude.{ℕ}
use fuse_scrollfs.Prelude.Result.{Result}

pub record BlockIo (W : Type 0) : Type 0 where
  pub write_at : W → ℕ → Bytes → Result (Unit {0}) × W
  -- The offset and the length of the buffer to fill.
  pub read_at : W → ℕ → ℕ → Result Bytes
  pub sync : W → Result (Unit {0}) × W
  pub len : W → Result ℕ
  pub set_len : W → ℕ → Result (Unit {0}) × W
