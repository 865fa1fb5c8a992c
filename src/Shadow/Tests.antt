-- ===== src/Shadow/Tests.antt =====
-- A store with one file on a device in memory. Paths are numbers; the checksum is the sum.
mod Durables
use fuse_scrollfs.Archive.Tests.{image, sum32}
use fuse_scrollfs.BlockCache.{keyed_nat, keyed_pair}
use fuse_scrollfs.BlockIo.FaultIo.{FaultIo, fault_block_io, from_bytes}
use fuse_scrollfs.Bytes.{Bytes}
use fuse_scrollfs.Prelude.{Option, [], arith, none, refl, some, true, ℕ, ◌∷◌, ◌≡◌, ◌≢◌}
use fuse_scrollfs.Prelude.Exec.{Ensures, Exec, ◌>>=◌, ◌>>◌}
use fuse_scrollfs.Prelude.Result.{Result, err, io_failure}
use fuse_scrollfs.Session.Ops.{seal_locked, write_at_locked}
use fuse_scrollfs.Session.Tail.{Open, on_disk}
use fuse_scrollfs.Session.Tests.{copying, zstd_params}
use fuse_scrollfs.Shadow.Backend.{shadow_store}
use fuse_scrollfs.Shadow.Buffer.{
  WriteSession, cut_off, merge_dirty, merge_from_flushing, over, passes, retain_dirty,
  session_layer, session_put, session_truncate,
}
use fuse_scrollfs.Shadow.Commit.{begin_commit, finish_commit, fsync, seal_tail_block}
use fuse_scrollfs.Shadow.Failure.{finish_commit-reads}
use fuse_scrollfs.Shadow.Inodes.{InodeMap, IsPaired, intern, new_inode_map, path_of, rename_entry}
use fuse_scrollfs.Shadow.Read.{block_geometry, get_block}
use fuse_scrollfs.Shadow.Renames.{
  apply_change, apply_changes, apply_changes-IsPaired, interned, removed, rename_entry-path_of,
  renamed,
}
use fuse_scrollfs.Shadow.State.{
  Shadow, blank_session, put_block, start_geometry, truncate_blocks, with_session,
}
use fuse_scrollfs.Shadow.Writes.{put_block-PutBlock, truncate_blocks-TruncateBlocks}
use fuse_scrollfs.Store.{PutBlock, StoredBlock, TruncateBlocks}

abbrev file_path : ℕ
file_path = 5

abbrev one_file : Shadow ℕ FaultIo
one_file = record {
  inodes = (intern file_path (new_inode_map 0)).1;
  tree = (file_path, from_bytes image) ∷ [];
  active = [];
  flushing = [];
}

abbrev blk : Bytes → StoredBlock
blk bytes = record { bytes = bytes; stored_verbatim = true }

-- Four bytes in the archive.
abbrev sealed_file : Shadow ℕ FaultIo
sealed_file = (seal_tail_block sum32 2 0 (blk (1 ∷ 2 ∷ 3 ∷ 4 ∷ [])) 4 one_file).1

abbrev opened : Open (Shadow ℕ FaultIo)
opened = record { disk = sealed_file; tail = none; seals = 0 }

-- The first byte is overwritten, two bytes are appended, and the file is synced.
abbrev mixed_writes : Exec (Open (Shadow ℕ FaultIo)) (Unit {0})
mixed_writes = write_at_locked copying (shadow_store sum32 4) 2 zstd_params true 0 (9 ∷ []) >>= λ _.
    write_at_locked copying (shadow_store sum32 4) 2 zstd_params true 4 (5 ∷ 6 ∷ []) >>= λ _.
    seal_locked copying (shadow_store sum32 4) 2 zstd_params true >> on_disk (fsync sum32 2)

-- To be evaluated: it computes to success, a file of four bytes, the overwritten block, and the two
-- appended bytes in the journal behind the end of the file.
abbrev mixed_outcome :
    Result (Unit {0}) × Option (ℕ × ℕ) × Result (Option StoredBlock) × Result (Option StoredBlock)
mixed_outcome =
    let (r, s) = mixed_writes opened in
    (r, block_geometry sum32 s.disk 2, get_block sum32 s.disk 2 0, get_block sum32 s.disk 2 1)

-- The commit of a truncation to nothing is under way; meanwhile the third block is written and the
-- file cut to two blocks.
abbrev cut_to_nothing : WriteSession
cut_to_nothing = session_truncate 0 0 (blank_session (4, 4))

abbrev written_since : WriteSession
written_since = session_truncate 2 8 (session_put 2 (blk (7 ∷ [])) 12 (blank_session (0, 4)))

-- If that commit fails, the first block, which was cut off, is read from the archive again.
cut_block_back :
    (over (session_layer 0 (some written_since)) (session_layer 0 (some cut_to_nothing)) ≡ cut_off)
    × (session_layer 0 (some (merge_from_flushing written_since cut_to_nothing)) ≡ passes)
unfolding session_layer merge_from_flushing session_truncate session_put retain_dirty merge_dirty
    keyed_nat
cut_block_back = (refl, refl)

apply_changes-IsPaired_example :
    IsPaired {P = ℕ} (apply_changes (interned 5 ∷ renamed 5 6 ∷ removed 6 ∷ []) (new_inode_map 0))
apply_changes-IsPaired_example =
    apply_changes-IsPaired 0 (interned 5 ∷ renamed 5 6 ∷ removed 6 ∷ [])

abbrev two_paths : InodeMap ℕ
two_paths = apply_changes (interned 5 ∷ interned 7 ∷ []) (new_inode_map 0)

rename_entry-path_of_example :
    (path_of 2 (rename_entry 5 6 two_paths) ≡ some 6)
    × ((q n : ℕ)
        → q ≢ 5
        → q ≢ 6
        → path_of n two_paths ≡ some q
        → path_of n (rename_entry 5 6 two_paths) ≡ some q)
unfolding path_of apply_changes apply_change intern new_inode_map keyed_nat
rename_entry-path_of_example =
    rename_entry-path_of 5 6 2 two_paths (apply_changes-IsPaired 0 (interned 5 ∷ interned 7 ∷ []))
      (λ e. omega (arith, e)) refl

-- A commit is under way, and the second block is written meanwhile.
abbrev flushed : WriteSession
flushed = session_put 0 (blk (7 ∷ 8 ∷ [])) 2 (blank_session (0, 4))

abbrev under_way : Shadow ℕ FaultIo
under_way = (put_block sum32 4 2 1 (blk (9 ∷ [])) 5 (begin_commit 2 flushed one_file)).1

finish_commit-reads_example :
    ((idx : ℕ)
      → get_block sum32 (finish_commit 2 flushed (err io_failure) under_way).1 2 idx
        ≡ get_block sum32 under_way 2 idx)
    × (block_geometry sum32 (finish_commit 2 flushed (err io_failure) under_way).1 2
        ≡ block_geometry sum32 under_way 2)
unfolding begin_commit put_block with_session session_put path_of intern new_inode_map keyed_nat
    start_geometry
finish_commit-reads_example = finish_commit-reads sum32 2 flushed io_failure under_way refl tt

put_block-PutBlock_example :
    Ensures
      (λ _ st'. PutBlock (shadow_store sum32 4) 2 0 (blk (7 ∷ [])) 6 4 under_way st')
      (λ _. ⊥)
      (put_block sum32 4 2 0 (blk (7 ∷ [])) 6 under_way)
unfolding begin_commit put_block with_session session_put path_of intern new_inode_map keyed_nat
    start_geometry block_geometry
put_block-PutBlock_example =
    put_block-PutBlock sum32 4 2 0 5 6 4 file_path (blk (7 ∷ [])) under_way refl refl

truncate_blocks-TruncateBlocks_example :
    Ensures
      (λ _ st'. TruncateBlocks (shadow_store sum32 4) 2 1 4 4 under_way st')
      (λ _. ⊥)
      (truncate_blocks sum32 4 2 1 4 under_way)
unfolding begin_commit put_block with_session session_put path_of intern new_inode_map keyed_nat
    start_geometry block_geometry
truncate_blocks-TruncateBlocks_example =
    truncate_blocks-TruncateBlocks sum32 4 2 1 5 4 4 file_path under_way refl refl
