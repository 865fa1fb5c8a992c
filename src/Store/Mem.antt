-- ===== src/Store/Mem.antt =====
-- crates/scrollz/src/store/tests_support.rs: the backend in memory, which the tests of the core run
-- on. Of a node only the blocks, the size, the chunk size and whether it is a regular file are kept.
use fuse_scrollfs.BlockCache.{keyed_nat, keyed_pair}
use fuse_scrollfs.Dict.{Dict, find, put}
use fuse_scrollfs.Prelude.{Bool, Option, [], false, if◌then◌else◌, ltb, none, some, ℕ, ◌∷◌}
use fuse_scrollfs.Prelude.Exec.{Exec}
use fuse_scrollfs.Prelude.Result.{err, not_found, ok}
use fuse_scrollfs.Store.{
  Store, StoredBlock, default_append_tail, default_read_head_cache, default_set_head_cache,
}

pub record Node : Type 0 where
  pub blocks : Dict ℕ StoredBlock
  pub size : ℕ
  pub chunk_size : ℕ
  pub regular : Bool

-- The map from inodes to nodes.
abbrev pub MemStore : Type 0
MemStore = Dict ℕ Node

abbrev pub retain_below : ℕ → Dict ℕ StoredBlock → Dict ℕ StoredBlock
retain_below keep_from [] = []
retain_below keep_from ((idx, blk) ∷ rest) =
    let kept = retain_below keep_from rest in if ltb idx keep_from then (idx, blk) ∷ kept else kept

abbrev pub geometry_of : Option Node → Option (ℕ × ℕ)
geometry_of none = none
geometry_of (some n) = if n.regular then some (n.size, n.chunk_size) else none

abbrev pub block_of : Option Node → ℕ → Option StoredBlock
block_of none idx = none
block_of (some n) idx = find idx n.blocks

abbrev pub update_node : ℕ → (Node → Node) → Exec MemStore (Unit {0})
update_node ino f nodes = elim (find ino nodes) [
  | none ↦ (err not_found, nodes)
  | some n ↦ (ok tt, put ino (f n) nodes)
]

unfoldable pub mem_put_block : ℕ → ℕ → StoredBlock → ℕ → Exec MemStore (Unit {0})
mem_put_block ino idx blk new_size =
    update_node ino (λ n. record n { blocks = put idx blk n.blocks; size = new_size })

unfoldable pub mem_truncate_blocks : ℕ → ℕ → ℕ → Exec MemStore (Unit {0})
mem_truncate_blocks ino keep_from new_size =
    update_node ino (λ n. record n { blocks = retain_below keep_from n.blocks; size = new_size })

unfoldable pub mem_store : Store MemStore
mem_store = record {
  get_block = λ nodes ino idx. ok (block_of (find ino nodes) idx);
  block_geometry = λ nodes ino. geometry_of (find ino nodes);
  put_block = mem_put_block;
  truncate_blocks = mem_truncate_blocks;
  supports_tail_journal = false;
  append_tail = default_append_tail;
  seal_tail_block = mem_put_block;
  set_head_cache = default_set_head_cache;
  read_head_cache = default_read_head_cache;
}
