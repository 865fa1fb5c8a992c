-- ===== src/Store.antt =====
-- crates/scrollz/src/store/mod.rs: the interface of the two backends. It moves compressed blocks and
-- does not look into them. `W` is the state of a backend; a method that changes it gives it back.
pub mod Mem
pub mod MemLaws
pub mod Lock
pub mod LockRetry
pub mod Tests
use fuse_scrollfs.BlockIo.FaultIo.{len}
use fuse_scrollfs.Bytes.{Bytes}
use fuse_scrollfs.Prelude.{Bool, Option, none, some, true, ℕ, ◌-◌, ◌/◌, ◌<◌, ◌≡◌, ◌≢◌, ◌≤◌}
use fuse_scrollfs.Prelude.Exec.{Ensures, Exec, lift, pure}
use fuse_scrollfs.Prelude.Result.{Result, err, ok, unsupported}

-- `StoredBlock`.
pub record StoredBlock : Type 0 where
  pub bytes : Bytes
  pub stored_verbatim : Bool

-- The methods of the trait `Store` on the blocks of a file.
pub record Store (W : Type 0) : Type 0 where
  pub get_block : W → ℕ → ℕ → Result (Option StoredBlock)
  pub block_geometry : W → ℕ → Option (ℕ × ℕ)
  pub put_block : ℕ → ℕ → StoredBlock → ℕ → Exec W (Unit {0})
  pub truncate_blocks : ℕ → ℕ → ℕ → Exec W (Unit {0})
  pub supports_tail_journal : Bool
  pub append_tail : ℕ → Bytes → ℕ → Exec W (Unit {0})
  pub seal_tail_block : ℕ → ℕ → StoredBlock → ℕ → Exec W (Unit {0})
  pub set_head_cache : ℕ → Bytes → Bool → ℕ → Exec W (Unit {0})
  pub read_head_cache : W → ℕ → ℕ → ℕ → Result (Option (Bytes × Bool))

-- The bodies that the trait gives to four of them.
abbrev pub default_append_tail : {W : Type 0} → ℕ → Bytes → ℕ → Exec W (Unit {0})
default_append_tail ino delta new_size = lift (err unsupported)

abbrev pub default_set_head_cache : {W : Type 0} → ℕ → Bytes → Bool → ℕ → Exec W (Unit {0})
default_set_head_cache ino stored_bytes verbatim rawlen = pure tt

abbrev pub default_read_head_cache : {W : Type 0} → W → ℕ → ℕ → ℕ → Result (Option (Bytes × Bool))
default_read_head_cache w ino off len = ok none

module _ {W : Type 0} (store : Store W) (ino : ℕ) where
  -- The size and the chunk size of the file after a call, and the block that it wrote.
  pub record PutBlock (idx : ℕ) (blk : StoredBlock) (new_size cs : ℕ) (w w' : W) : Type 0 where
    pub here : store.get_block w' ino idx ≡ ok (some blk)
    pub others : (j : ℕ) → j ≢ idx → store.get_block w' ino j ≡ store.get_block w ino j
    pub geometry : store.block_geometry w' ino ≡ some (new_size, cs)

  pub record TruncateBlocks (keep_from new_size cs : ℕ) (w w' : W) : Type 0 where
    pub kept : (j : ℕ) → j < keep_from → store.get_block w' ino j ≡ store.get_block w ino j
    pub dropped : (j : ℕ) → keep_from ≤ j → store.get_block w' ino j ≡ ok none
    pub geometry : store.block_geometry w' ino ≡ some (new_size, cs)

  pub record AppendTail (new_size cs : ℕ) (w w' : W) : Type 0 where
    pub others :
        (j : ℕ) → j ≢ (new_size - 1) / cs → store.get_block w' ino j ≡ store.get_block w ino j
    pub geometry : store.block_geometry w' ino ≡ some (new_size, cs)

  pub record SetHeadCache (w w' : W) : Type 0 where
    pub blocks : (j : ℕ) → store.get_block w' ino j ≡ store.get_block w ino j
    pub geometry : store.block_geometry w' ino ≡ store.block_geometry w ino

  -- What the trait's comments ask of a backend on a file that has blocks. `fails` are the states an
  -- error may leave; a backend that never fails has none.
  pub record IsLawful (fails : W → Type 0) : Type 0 where
    pub put_block_lem :
        (idx : ℕ) (blk : StoredBlock) (new_size s cs : ℕ) (w : W)
        → store.block_geometry w ino ≡ some (s, cs)
        → Ensures
            (λ _ w'. PutBlock idx blk new_size cs w w')
            fails
            (store.put_block ino idx blk new_size w)
    pub seal_tail_block_lem :
        (idx : ℕ) (blk : StoredBlock) (new_size s cs : ℕ) (w : W)
        → store.block_geometry w ino ≡ some (s, cs)
        → Ensures
            (λ _ w'. PutBlock idx blk new_size cs w w')
            fails
            (store.seal_tail_block ino idx blk new_size w)
    pub truncate_blocks_lem :
        (keep_from new_size s cs : ℕ) (w : W)
        → store.block_geometry w ino ≡ some (s, cs)
        → Ensures
            (λ _ w'. TruncateBlocks keep_from new_size cs w w')
            fails
            (store.truncate_blocks ino keep_from new_size w)
    pub append_tail_lem :
        (delta : Bytes) (new_size s cs : ℕ) (w : W)
        → store.supports_tail_journal ≡ true
        → store.block_geometry w ino ≡ some (s, cs)
        → Ensures
            (λ _ w'. AppendTail new_size cs w w')
            fails
            (store.append_tail ino delta new_size w)
    pub set_head_cache_lem :
        (stored_bytes : Bytes) (verbatim : Bool) (rawlen : ℕ) (w : W)
        → Ensures
            (λ _ w'. SetHeadCache w w')
            fails
            (store.set_head_cache ino stored_bytes verbatim rawlen w)
