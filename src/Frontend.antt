-- ===== src/Frontend.antt =====
-- crates/scrollz/src/rwfs.rs: the FUSE front end, which is the same for both layouts. What it answers
-- the kernel, over an open file and the cache of decompressed blocks.
pub mod Read
pub mod FileBytes
pub mod Cached
pub mod Piece
pub mod ReadBlock
pub mod ReadRound
pub mod ReadRange
mod Tests
