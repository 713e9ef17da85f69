-- ===== src/Compact.antt =====
-- compact.rs and its modules: the compaction controllers.
pub mod Float
pub mod Simple
pub mod Tiered
pub mod Leveled
pub mod Task
