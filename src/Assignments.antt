-- ===== src/Assignments.antt =====
-- crates/assignments: the network's assignment of chunks to workers, its two column formats and
-- how they are read back.
pub mod Search
pub mod Columns
pub mod Entries
pub mod Worker
pub mod Portal
pub mod Monolithic
pub mod Network
pub mod Loading
pub mod Ids
