-- ===== src/Lib.antt =====
-- Verification of scrollz (fuse-scrollfs), a filesystem that stores append-mostly session logs as
-- compressed chunk archives.
--
-- Parts, by file:
--   Prelude, Bytes: lists, results and the little-endian fields that all parts share
--     (crates/scrollz/src/archive/format.rs).
--   Chunk: the block arithmetic of crates/scrollz/src/core/chunk.rs and the chunk size limits of
--     core/mod.rs.
--   BlockIo: the seam of positioned reads, writes and barriers (crates/scrollz/src/blockio.rs);
--     BlockIo/FaultIo is its crash simulator, in which writes are pending until a barrier and a crash
--     keeps any subset of the pending writes.
--   Archive: the archive format and its two superblock slots (crates/scrollz/src/archive):
--     Superblock (superblock.rs), Journal (journal.rs), Index, Validate and Reader (reader.rs),
--     Updater with Updater/Commit and Updater/Open (updater.rs), Writer (writer.rs). Recovery states
--     what it takes for bytes to hold an archive, the contract between the updater and the reader,
--     and Crash is about the updater's side of it, with the restart after a crash in Crash/Reopen.
--   Codec: the compression of one block (crates/scrollz/src/core/codec.rs), and Codec/Window its
--     window for long distance matching.
--   Store: the interface between the core and its backends (crates/scrollz/src/store/mod.rs) as a
--     record of operations, with what it asks of them; Store/Mem is the backend in memory
--     (store/tests_support.rs), which fills it.
--   Rmw: writes and truncations over any store (crates/scrollz/src/core/rmw.rs). Rmw/View reads a
--     file as a function from positions to bytes, and Rmw/WriteAt and Rmw/TruncateAt compare the
--     operations with it.
--   Session: an open file, whose last block is kept unpacked (crates/scrollz/src/core/wsession.rs),
--     over Rmw. Session/View reads it the same way, and Session/Journaled is about fsync where the
--     backend has a journal of the tail.
--   Store/Lock: the lock of a backing directory and its retry (store/lock.rs).
--   Reconcile: the merge of two logs of one session (crates/scrollz/src/reconcile): Text has the
--     strings, Record the classification of lines (record.rs), Merge the union and the gate
--     (merge.rs), Advisor the recommendation (advisor.rs), and Apart describes the two logs that it
--     is about without the code's lists of uuids.
--   Dict, BlockCache: the cache of decompressed blocks (crates/scrollz/src/core/blockcache.rs), its
--     hash maps and its ordered map as association lists.
--   Shadow: the backend that keeps every file as an archive (crates/scrollz/src/store/shadow.rs):
--     Inodes is its map of inodes, Buffer the write session and how two of them merge, State, Read
--     and Commit are its methods over the archive reader and updater, and Backend puts them behind
--     the interface of Store. Staged and Durable follow a commit of a session through the updater
--     (Archive/Crash/Seen, Kept and ReadBack) to what a reader finds after a crash.
--   Frontend: the read path of the FUSE front end (crates/scrollz/src/rwfs.rs) over the open file,
--     the cache of blocks and the store; FileBytes says what a read should answer.
--
-- State and errors: a method with `&mut self` that returns `io::Result` is a function from the state
-- to a result beside the new state (Prelude/Exec), so that what was changed before an error stays
-- changed. `Ensures` states what holds after either outcome.
--
-- Numbers: offsets, lengths and sequence numbers are natural numbers; where the code writes them to
-- a field of fixed width the bound is a hypothesis, and where it uses checked or wrapping arithmetic
-- that is written out (checked_add, checked_mul, add64, sub64, mul64). Debug assertions are hypotheses.
--
-- Fuel: the replay loop of the journal is given the buffer's length, and every round consumes a
-- header of eight bytes or stops. The eviction loop of the cache is given the number of entries
-- of the eviction order, of which every round removes one. The append loop is given the number of
-- bytes, of which every round writes at least one. All other loops are structural.
--
-- Parameters: the checksum of the crate crc32fast is any function into the u32; no theorem needs
-- more of it than that. The zstd crate is a record of its calls (Codec.Zstd), of which IsZstd says
-- that a frame is decoded to what it was made of. The crate serde_json is any parser
-- (Reconcile/Record.SerdeJson), and the system calls of the lock are a record (Store/Lock.LockOs).
-- The operating system's number of an error, raw_os_error of the standard library, is any partial
-- function of the error.
-- What an error of a store or of the codec leaves is a parameter, `fails`; with `fails` never true,
-- the theorems say that there is no error.
--
-- Concurrency: a lock that the code holds over a whole method makes the method one step. The commit
-- of a write session lets other writes in, so it is three steps (begin_commit, the updater,
-- finish_commit), and what is said of finish_commit holds for any state between.
--
-- Not modelled: the FUSE callbacks other than the read path, the container store, which is a client
-- of the database redb, the system calls behind the namespace methods of the stores, the cache of
-- opened archive readers, the counters of the metrics, the command line, the enable workflow and the
-- orchestration of reconciliation, which are I/O over the parts above; see the manifest for each.
pub mod Prelude
pub mod Bytes
pub mod Chunk
pub mod Codec
pub mod Store
pub mod Rmw
pub mod Session
pub mod Reconcile
pub mod BlockIo
pub mod Archive
pub mod Dict
pub mod Frontend
pub mod Shadow
pub mod BlockCache
mod ChunkTests
