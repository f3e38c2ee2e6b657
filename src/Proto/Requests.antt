-- ===== src/Proto/Requests.antt =====
-- The requests of the protocol headers in fw/v0/include/no2usb, and who answers them.
pub mod Request
pub mod Usb
pub mod Ac
pub mod Vc
pub mod Cdc
pub mod Passed
