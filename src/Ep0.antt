-- ===== src/Ep0.antt =====
-- The control endpoint: fw/v0/src/usb_ctrl_ep0.c.
pub mod Regs
pub mod Transfer
pub mod Poll
pub mod Packet
pub mod Host
pub mod Read
pub mod ReadRequest
pub mod NoData
pub mod Termination
pub mod Ends
pub mod Write
