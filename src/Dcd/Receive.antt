-- ===== src/Dcd/Receive.antt =====
-- What a transfer from the host does to memory: `_usb_ep_advance_xfer_out` of
-- fw/tinyusb/dcd_no2usb.c.
pub mod Packet
pub mod Rounds
pub mod Frame
pub mod Retry
