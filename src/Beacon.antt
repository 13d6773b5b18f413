-- ===== src/Beacon.antt =====
-- rust-core/src/beacon.rs: beacons that relay JSON-RPC calls to Solana.
pub mod Wire
pub mod Manager
pub mod Rpc
mod Requests
pub mod Reach
mod Tests
