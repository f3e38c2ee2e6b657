-- ===== src/Dcd.antt =====
-- The port for the TinyUSB stack: fw/tinyusb/dcd_no2usb.c.
pub mod State
pub mod Memory
pub mod Transfer
pub mod Device
pub mod Endpoint
pub mod Copy
pub mod Slots
pub mod Packets
pub mod Stream
pub mod Open
pub mod Receive
pub mod Submit
pub mod Total
pub mod Safe
pub mod Handler
pub mod Calls
pub mod Started
pub mod Reached
pub mod Setup
pub mod Reset
