-- ===== src/Proto/Codes.antt =====
-- The enumerations of the protocol headers in fw/v0/include/no2usb.
pub mod Enum
pub mod Usb
pub mod Ac
pub mod Vc
pub mod Cdc
pub mod Names
