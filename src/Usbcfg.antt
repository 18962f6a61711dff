-- ===== src/Usbcfg.antt =====
-- firmware/src/usbcfg: the USB configuration channel.
pub mod Utf8
pub mod Command
pub mod Cmdline
pub mod Stage
