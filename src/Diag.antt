-- ===== src/Diag.antt =====
-- firmware/src/diag: what a device notices about itself.
pub mod Stuck
