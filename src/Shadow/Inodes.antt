-- ===== src/Shadow/Inodes.antt =====
-- `InodeMap` of crates/scrollz/src/store/shadow.rs. A path is what PathBuf is: a key that can be
-- compared, with the empty path for the root.
use fuse_scrollfs.BlockCache.{keyed_nat, keyed_pair}
use fuse_scrollfs.Dict.{Dict, Keyed, erase, find, put}
use fuse_scrollfs.Prelude.{Option, [], none, some, ℕ, ◌+◌, ◌<◌, ◌≡◌}

pub record InodeMap (P : Type 0) : Type 0 where
  pub by_ino : Dict ℕ P
  pub by_path : Dict P ℕ
  pub next_ino : ℕ

abbrev pub root_ino : ℕ
root_ino = 1

module _ {P : Type 0} ⦃path : Keyed P⦄ where
  unfoldable pub new_inode_map : P → InodeMap P
  new_inode_map root = record {
    by_ino = put root_ino root [];
    by_path = put root root_ino [];
    next_ino = 2;
  }

  unfoldable pub path_of : ℕ → InodeMap P → Option P
  path_of ino im = find ino im.by_ino

  abbrev pub add_path : P → InodeMap P → InodeMap P
  add_path p im = record {
    by_ino = put im.next_ino p im.by_ino;
    by_path = put p im.next_ino im.by_path;
    next_ino = im.next_ino + 1;
  }

  -- The number of the path, and the map after a new one is handed out.
  unfoldable pub intern : P → InodeMap P → ℕ × InodeMap P
  intern p im = elim (find p im.by_path) [
    | some ino ↦ (ino, im)
    | none ↦ (im.next_ino, add_path p im)
  ]

  unfoldable pub remove_path : P → InodeMap P → InodeMap P
  remove_path p im = elim (find p im.by_path) [
    | none ↦ im
    | some ino ↦ record im { by_path = erase p im.by_path; by_ino = erase ino im.by_ino }
  ]

  unfoldable pub rename_path : P → P → InodeMap P → InodeMap P
  rename_path old new im = elim (find old im.by_path) [
    | none ↦ im
    | some ino ↦ record im {
      by_path = put new ino (erase old im.by_path);
      by_ino = put ino new im.by_ino;
    }
  ]

  -- What `rename` of the store does to the map: the entry that it overwrites goes first.
  unfoldable pub rename_entry : P → P → InodeMap P → InodeMap P
  rename_entry old new im = rename_path old new (remove_path new im)

  -- Path and number determine each other, and a number that was handed out is below the next one.
  pub record IsPaired (im : InodeMap P) : Type 0 where
    pub there : (p : P) (ino : ℕ) → find p im.by_path ≡ some ino → find ino im.by_ino ≡ some p
    pub back : (p : P) (ino : ℕ) → find ino im.by_ino ≡ some p → find p im.by_path ≡ some ino
    pub below : (p : P) (ino : ℕ) → find p im.by_path ≡ some ino → ino < im.next_ino
