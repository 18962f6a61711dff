-- ===== src/Proto.antt =====
-- firmware/src/proto: what is said to the relay.
pub mod Hex
pub mod Auth
pub mod Json
pub mod Scan
pub mod Pieces
pub mod Session
pub mod Inbound
pub mod Relay
