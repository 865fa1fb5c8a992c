-- ===== src/Shadow.antt =====
-- crates/scrollz/src/store/shadow.rs: the backend that keeps each file as an archive in a mirrored
-- tree. Its state are the map of inodes, the two buffers of write sessions and the archives. The
-- locks make each method one step; a commit is three, so that writes may come while it runs.
pub mod Inodes
pub mod InodeLaws
pub mod Renames
pub mod Buffer
pub mod Merge
pub mod Sorted
pub mod Staged
pub mod State
pub mod Read
pub mod Commit
pub mod Failure
pub mod Backend
pub mod Durable
pub mod Layers
pub mod Writes
mod Tests
