-- ===== src/Net.antt =====
-- firmware/src/net: addresses.
pub mod Url
