-- ===== src/Ota.antt =====
-- firmware/src/ota: which slot boots, signed images, and the writing of the spare slot.
pub mod State
pub mod Image
pub mod Writer
pub mod Running
