-- ===== src/Ble.antt =====
-- rust-core/src/ble_iface.rs: the BLE interface, from the frames that Kotlin hands over to the
-- packets of the transport and back.
pub mod Segment
pub mod Queues
pub mod Worker
mod Tests
