-- ===== src/Lib.antt =====
-- A model of tiny-lsm, a storage engine on a log-structured merge tree, written in Rust.
--
-- The parts of the program and the files that model them (paths from the repository's root):
-- - Key: src/key.rs, user keys with a timestamp; versions of one user key go from the newest to the
--   oldest.
-- - Buffer: what the code takes from the crates `bytes` and `crc32fast`, as records of operations
--   with the laws that their documentation gives.
-- - Block, Block/Builder, Block/Iterator: src/block.rs, src/block/builder.rs, src/block/iterator.rs.
--   A builder collects entries into a block, a block is encoded and decoded, an iterator reads it.
-- - Table/Bloom, Table/Sst, Table/Builder, Table/Iterator: src/table/bloom.rs, src/table.rs,
--   src/table/builder.rs and src/table/iterator.rs; a table's file is its bytes.
-- - Wal: src/wal.rs, as the bytes of the log's file.
-- - MemTable: src/mem_table.rs. The skip list of the crate `crossbeam_skiplist` is the record
--   `SkipMap`, an ordered map; a memtable writes to it and to its log.
-- - Iterators: src/iterators.rs and src/iterators. The trait `StorageIterator` is a record of
--   operations; `Yields` says which entries an iterator goes through. Iterators/Cursors has the
--   implementations for memtables, tables and runs of tables. Streams, Present, MergeHeap and
--   MergeYields carry the proof about `MergeIterator`: runs of entries, and which of them are under
--   the wrappers in its heap.
-- - LsmIterator: src/lsm_iterator.rs, over any inner iterator; Skips and Settle are about what
--   its loops pass, Order and End about the order of what it shows and its end.
-- - Storage: src/lsm_storage.rs. State is the tree that the compaction controllers change, Ranges the
--   tests of a table's key range, Inner `LsmStorageInner` with its options and the crates that it
--   uses, Write the writes, freezes and flushes, Read the gets and scans, Open the creation and the
--   recovery, Compaction the compactions of src/compact.rs. A flush and a compaction by a thread have
--   a half before and a half at the change of the state. Steps makes writes, freezes and flushes the
--   steps of a relation, WellFormed and Invariant hold its invariant, Installs is about it when a
--   compaction is installed. Snapshots and Merged are about what the iterators of gets and scans yield,
--   Finds, ReadBack and ScanBack about gets and scans after a write. src/manifest.rs is the interface
--   `Manifest` in Inner, with its functions as they stand.
-- - Compact: src/compact/simple_leveled.rs, tiered.rs and leveled.rs, the controllers: each makes a
--   task from a state, and applies the result of a task to a state that may have grown meanwhile.
--   Compact/Task has the tasks and the choice of the controller of src/compact.rs.
-- - Mvcc: src/mvcc.rs and src/mvcc/txn.rs, a transaction with its local writes.
-- - Common: tests, lists and the `Option` of a computation that may panic, shared by all.
-- - Tests: the theorems at concrete inputs.
--
-- A panic (an index out of range, an assertion, an underflow, a buffer that is too short) and an
-- error are `none`. The integers are native numbers; where the code truncates or wraps around, the
-- remainder is written out. `f64` is the record `Float`, of which one fact about quotients is used.
-- Loops are recursive functions. The binary search of a block, the recovery of a log and the loop of
-- `SstConcatIterator` have fuel, the number of entries, the length of the file and the number of
-- tables, and the theorems show that it is enough; the loops of `LsmIterator`, `MergeIterator` and
-- of the gets and compactions take their fuel as an argument, and a theorem about one of the first
-- three says how much is enough.
--
-- Not modelled: files, threads, locks and the block cache, and with them `close` and `sync`; the
-- watermark and the commit of a transaction, which the source leaves unimplemented; the printing in
-- src/debug.rs and the programs in src/bin; and, for now, the scan of a transaction.
pub mod Common
pub mod Key
pub mod Buffer
pub mod Block
pub mod Table
pub mod Wal
pub mod Storage
pub mod MemTable
pub mod Iterators
pub mod LsmIterator
pub mod Mvcc
pub mod Tests
pub mod Compact
