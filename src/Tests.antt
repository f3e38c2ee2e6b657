-- ===== src/Tests.antt =====
-- The theorems at concrete inputs.
pub mod Fixture
pub mod Requests
pub mod Transfers
pub mod Descriptors
pub mod Devices
pub mod Drivers
pub mod Updates
pub mod Ports
pub mod Receives
pub mod Vendors
pub mod Protocols
pub mod Boots
pub mod Interrupts
