-- ===== src/Reconcile.antt =====
-- crates/scrollz/src/reconcile: the merge of two logs of one session.
pub mod Text
pub mod Record
pub mod Merge
pub mod Ingest
pub mod AddItem
pub mod Output
pub mod Lossless
pub mod Gate
pub mod Apart
pub mod Advisor
pub mod Tests
