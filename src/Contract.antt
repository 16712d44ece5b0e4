-- ===== src/Contract.antt =====
-- crates/contract-client: reads of the on-chain registries.
pub mod Merge
