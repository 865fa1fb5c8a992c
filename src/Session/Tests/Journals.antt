-- ===== src/Session/Tests/Journals.antt =====
-- A backend that is nothing but the journal of one file: two bytes of the tail are in it, a third
-- has been written since, and two more are appended before fsync.
use fuse_scrollfs.Bytes.{Bytes}
use fuse_scrollfs.Prelude.{[], none, refl, some, true, ◌++◌, ◌∷◌, ◌≡◌}
use fuse_scrollfs.Prelude.Exec.{modify, pure}
use fuse_scrollfs.Prelude.Result.{ok}
use fuse_scrollfs.Session.Ops.{extend_tail}
use fuse_scrollfs.Session.Tail.{Open, Tail}
use fuse_scrollfs.Store.{Store}

abbrev journal_store : Store Bytes
journal_store = record {
  get_block = λ w ino idx. ok none;
  block_geometry = λ w ino. none;
  put_block = λ ino idx blk new_size. pure tt;
  truncate_blocks = λ ino keep_from new_size. pure tt;
  supports_tail_journal = true;
  append_tail = λ ino delta new_size. modify (λ w. w ++ delta);
  seal_tail_block = λ ino idx blk new_size. modify (λ w. []);
  set_head_cache = λ ino stored_bytes verbatim rawlen. pure tt;
  read_head_cache = λ w ino off len. ok none;
}

abbrev journaled_tail : Tail
journaled_tail = record {
  idx = 1;
  plain = 7 ∷ 8 ∷ 9 ∷ [];
  chunk_size = 8;
  file_size = 11;
  journaled_len = 2;
}

abbrev appended : Tail
appended = extend_tail 8 (5 ∷ 6 ∷ []) journaled_tail

abbrev journaled_open : Open Bytes
journaled_open = record { disk = 7 ∷ 8 ∷ []; tail = some appended; seals = 0 }

appended_plain : appended.plain ≡ 7 ∷ 8 ∷ 9 ∷ 5 ∷ 6 ∷ []
unfolding extend_tail
appended_plain = refl
