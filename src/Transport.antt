-- ===== src/Transport.antt =====
-- crates/transport: the network layer of workers, portals and observers.
pub mod Pubsub
pub mod Whitelist
pub mod Addresses
pub mod Dialing
