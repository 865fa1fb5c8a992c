-- ===== src/Frontend/Tests.antt =====
-- Reads of the file of five bytes, and of the one that a sparse write left with a short block.
use fuse_scrollfs.BlockCache.{get, keyed_nat}
use fuse_scrollfs.BlockCache.Tests.{empty_cache}
use fuse_scrollfs.Bytes.{Bytes}
use fuse_scrollfs.Chunk.{block_range}
use fuse_scrollfs.Codec.{
  algo_zstd, compress_algo, compress_block, compress_block_full, compress_zstd, decompress_block,
  is_incompressible, plain,
}
use fuse_scrollfs.Frontend.FileBytes.{file_bytes}
use fuse_scrollfs.Frontend.Read.{
  by_blocks, copied, eio, failed, fetch, from_block, io_to_errno, plain_block, read_blocks,
  read_found, read_range, read_round,
}
use fuse_scrollfs.Frontend.ReadBlock.{IsReadable}
use fuse_scrollfs.Frontend.ReadRange.{Answers, read_range-file_bytes}
use fuse_scrollfs.Prelude.{
  [], ap, arith, length, none, refl, some, suc, sym, true, zero, ℕ, ◌*◌, ◌+◌, ◌<◌, ◌∷◌, ◌≡◌,
}
use fuse_scrollfs.Prelude.Result.{ok}
use fuse_scrollfs.Rmw.Block.{maybe_build_head_cache, store_plain_block}
use fuse_scrollfs.Rmw.Load.{compress_plain, load_plain_block}
use fuse_scrollfs.Rmw.Write.{
  old_plain, patch, span, write_at, write_block, write_blocks, write_checked, write_found,
}
use fuse_scrollfs.Session.Tail.{Open, geometry_locked, read_tail_block}
use fuse_scrollfs.Session.Tests.{
  copying, five, five_bytes, five_bytes-IsFile, just_opened, sparse_write, stored_raw, zstd_params,
}
use fuse_scrollfs.Store.{StoredBlock}
use fuse_scrollfs.Store.Mem.{MemStore, mem_put_block, mem_store}
use mathlib.Core.Path.{subst}

five_bytes-IsReadable : IsReadable copying mem_store 2 zstd_params five 5 4 just_opened
unfolding mem_store keyed_nat decompress_block
five_bytes-IsReadable = record {
  holds = five_bytes-IsFile;
  whole = λ idx b plain inner e d. go idx b plain inner e d;
  head = λ off len. tt;
}
  where
    go :
        (idx : ℕ) (b : StoredBlock) (plain : Bytes)
        → idx * 4 + 4 < 5
        → mem_store.get_block five_bytes 2 idx ≡ ok (some b)
        → decompress_block copying b.bytes zstd_params.algo b.stored_verbatim zstd_params.dict
          ≡ ok plain
        → length plain ≡ 4
    go zero b plain inner e d =
        let q : ok (some (stored_raw (10 ∷ 11 ∷ 12 ∷ 13 ∷ []))) ≡ ok (some b) = e in
        let r : stored_raw (10 ∷ 11 ∷ 12 ∷ 13 ∷ []) ≡ b = cc in
        let d' : ok (10 ∷ 11 ∷ 12 ∷ 13 ∷ []) ≡ ok plain =
          subst (λ x. decompress_block copying x.bytes algo_zstd x.stored_verbatim none ≡ ok plain)
            (sym r) d in
        let same : 10 ∷ 11 ∷ 12 ∷ 13 ∷ [] ≡ plain = cc in ap (λ xs. length xs) (sym same)
    go (suc idx) b plain inner e d = absurd (omega (arith, inner))

-- Bytes that two blocks hold.
read_range-file_bytes_example :
    Answers copying mem_store 2 zstd_params five 5 4 100 10
      (λ _. 0)
      (λ _. none)
      just_opened
      five_bytes-IsReadable
      (omega arith)
      (omega arith)
      (file_bytes five 2 2)
      (read_range copying mem_store 2 zstd_params true 100 10
        (λ _. 0)
        (λ _. none)
        (λ _. none)
        just_opened
        2
        2
        empty_cache)
read_range-file_bytes_example =
    read_range-file_bytes copying mem_store 2 zstd_params five 5 4 100 10 (λ _. 0) (λ _. none)
      just_opened five_bytes-IsReadable (omega arith) (omega arith) (λ _. none) 2 2 empty_cache
      (omega arith) (λ idx n h. absurd cc)

abbrev sparse_file : Open MemStore
sparse_file = record { disk = sparse_write; tail = none; seals = 0 }

-- Of the short block, which the file goes beyond, more is asked for than it holds.
short_block_fails :
    (read_range copying mem_store 2 zstd_params true 100 10
      (λ _. 0)
      (λ _. none)
      (λ _. none)
      sparse_file
      5
      3
      empty_cache).0
    ≡ failed eio
unfolding mem_store mem_put_block load_plain_block decompress_block keyed_nat write_at write_found
    write_checked write_blocks write_block old_plain span patch block_range store_plain_block
    maybe_build_head_cache compress_plain compress_block compress_block_full compress_algo
    compress_zstd plain is_incompressible geometry_locked read_tail_block get read_range read_found
    by_blocks read_blocks read_round plain_block fetch from_block copied io_to_errno
short_block_fails = refl
