-- ===== src/Table.antt =====
-- table.rs and its modules: the Bloom filter of a table.
pub mod Bloom
pub mod Sst
pub mod Builder
pub mod Iterator
