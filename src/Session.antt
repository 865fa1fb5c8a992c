-- ===== src/Session.antt =====
-- crates/scrollz/src/core/wsession.rs: the last block of an open file is kept unpacked in memory, so
-- that an append does not compress it again. The caller holds the lock of the inode.
pub mod Tail
pub mod Ops
pub mod View
pub mod Materialize
pub mod Extend
pub mod Append
pub mod WriteAt
pub mod Keep
pub mod Journaled
pub mod Tests
