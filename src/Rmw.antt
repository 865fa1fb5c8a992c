-- ===== src/Rmw.antt =====
-- crates/scrollz/src/core/rmw.rs: reads, changes and writes of the blocks of a file. The counter of
-- compressions, which only benchmarks read, is left out.
pub mod Load
pub mod Block
pub mod Write
pub mod View
pub mod BlockRules
pub mod Patch
pub mod WriteBlocks
pub mod WriteAt
pub mod Truncate
pub mod Cut
pub mod TruncateAt
