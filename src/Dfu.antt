-- ===== src/Dfu.antt =====
-- The driver for firmware updates: fw/v0/src/usb_dfu.c and fw/v0/src/usb_dfu_vendor.c.
pub mod State
pub mod Tick
pub mod Request
pub mod Callbacks
pub mod Table
pub mod Overrun
pub mod Checks
pub mod Finish
