-- ===== src/Proto.antt =====
-- The structures that the protocol headers in fw/v0/include/no2usb declare: what a structure's layout
-- is, the structures of each header, and what the stack finds in objects of them.
pub mod Layout
pub mod Usb
pub mod Ac
pub mod AcStreams
pub mod Vc
pub mod VcStreams
pub mod Cdc
pub mod Kinds
pub mod Bytes
pub mod Walk
pub mod Codes
pub mod Requests
