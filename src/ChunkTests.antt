-- ===== src/ChunkTests.antt =====
-- The block range of crates/scrollz/src/core/chunk.rs at a concrete write.
use fuse_scrollfs.Chunk.{block_range}
use fuse_scrollfs.Chunk.Range.{block_range-meets}
use fuse_scrollfs.Prelude.{arith, refl, ◌*◌, ◌+◌, ◌<◌, ◌↔◌, ◌≡◌, ◌≤◌}

block_range-meets_example :
    (((block_range 3 6 4).0 ≤ 1) × (1 ≤ (block_range 3 6 4).1))
    ↔ ((3 < (1 + 1) * 4) × (1 * 4 < 3 + 6))
block_range-meets_example = block_range-meets 3 6 4 1 (omega arith) (omega arith) (omega arith)

-- Bytes 3 to 8 lie in blocks 0, 1 and 2.
block_range_three : block_range 3 6 4 ≡ (0, 2)
unfolding block_range
block_range_three = refl
