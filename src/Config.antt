-- ===== src/Config.antt =====
-- firmware/src/config: the configuration record and its storage.
pub mod Crc
pub mod Record
pub mod Flash
pub mod Mac
pub mod Live
pub mod Token
