-- ===== src/Lxmf.antt =====
-- rust-core/src/node.rs, from `verify_lxmf_signature` on: the LXMF wire format.
pub mod Msgpack
pub mod Utf8
pub mod Fields
pub mod Payload
mod Tests
