-- ===== src/Messages.antt =====
-- crates/messages: the protocol's messages, what is computed over them and what is signed.
pub mod Range
pub mod Signatures
