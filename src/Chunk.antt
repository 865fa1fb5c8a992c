-- ===== src/Chunk.antt =====
-- crates/scrollz/src/core/chunk.rs and the chunk size limits of core/mod.rs.
pub mod Range
use fuse_scrollfs.BlockIo.FaultIo.{len}
use fuse_scrollfs.Bytes.{u64_mod}
use fuse_scrollfs.Prelude.{if◌then◌else◌, ltb, not, ℕ, ◌%◌, ◌&&◌, ◌*◌, ◌+◌, ◌-◌, ◌/◌, ◌==◌}
use fuse_scrollfs.Prelude.Result.{Result, invalid_input, refuse_if, ◌>>◌}

-- `+`, `-` and `*` on u64 in a release build, which wraps.
abbrev pub add64 : ℕ → ℕ → ℕ
add64 a b = (a + b) % u64_mod

abbrev pub sub64 : ℕ → ℕ → ℕ
sub64 a b = (a + u64_mod - b) % u64_mod

abbrev pub mul64 : ℕ → ℕ → ℕ
mul64 a b = a * b % u64_mod

unfoldable pub block_range : ℕ → ℕ → ℕ → ℕ × ℕ
block_range offset len chunk_size =
    if len == 0
    then (offset / chunk_size, offset / chunk_size)
    else (offset / chunk_size, sub64 (add64 offset len) 1 / chunk_size)

unfoldable pub offset_in_block : ℕ → ℕ → ℕ
offset_in_block offset chunk_size = offset % chunk_size

abbrev pub max_chunk_size : ℕ
max_chunk_size = 64 * 1024 * 1024

abbrev pub min_chunk_size : ℕ
min_chunk_size = 64 * 1024

unfoldable pub validate_chunk_size : ℕ → Result (Unit {0})
validate_chunk_size chunk_size =
    refuse_if (ltb max_chunk_size chunk_size) invalid_input
    >> refuse_if (not (chunk_size == 0) && ltb chunk_size min_chunk_size) invalid_input
