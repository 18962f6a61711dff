-- ===== src/Provisioning.antt =====
-- firmware/src/provisioning: the messages of the setup hotspot.
pub mod Network
pub mod Dns
pub mod Dhcp
pub mod Http
