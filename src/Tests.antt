-- ===== src/Tests.antt =====
-- The theorems at concrete inputs, and the code run on them.
pub mod Bisection
pub mod Chunks
pub mod Fleets
pub mod Dials
pub mod Names
pub mod Ranges
pub mod Registry
pub mod Portals
pub mod Loading
pub mod Networks
pub mod Lookups
pub mod Monoliths
pub mod Signing
pub mod Gossip
