-- ===== src/Storage.antt =====
-- lsm_storage.rs: the state of the engine.
pub mod State
pub mod Ranges
pub mod Files
pub mod Inner
pub mod Write
pub mod Read
pub mod WellFormed
pub mod Steps
pub mod Invariant
pub mod Safety
pub mod Installs
pub mod Gets
pub mod Snapshots
pub mod Merged
pub mod GetsAt
pub mod Finds
pub mod ReadBack
pub mod ScanBack
pub mod Compaction
pub mod Open
