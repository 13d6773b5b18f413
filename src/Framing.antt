-- ===== src/Framing.antt =====
-- rust-core/src/framing.rs: the HDLC codec of the BLE mesh and the KISS codec of RNode devices.
pub mod Hdlc
pub mod Kiss
mod Tests
