-- ===== src/Std.antt =====
-- The standard requests: fw/v0/src/usb_ctrl_std.c.
pub mod Status
pub mod Config
pub mod Handle
pub mod Address
pub mod Describe
pub mod Select
pub mod Configure
pub mod Configured
