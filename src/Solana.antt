-- ===== src/Solana.antt =====
-- rust-core/src/solana_tx.rs, and the checks of rust-core/src/beacon_server.rs on a message.
pub mod Compact
pub mod Message
pub mod Build
pub mod Slots
pub mod Inspect
mod Nonce
mod Tests
