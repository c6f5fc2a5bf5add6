-- ===== src/Usb.antt =====
-- LptToUsbAdapter/UsbLptLib/UsbWrappers.c on Windows: opening a device, transfers over its control
-- endpoint and its two pipes, and the list of the devices.
pub mod Tests
pub mod SetupTests
pub mod Api
pub mod Device
pub mod Leaks
pub mod Setup
pub mod Strings
pub mod Hubs
pub mod Enumeration
pub mod Config
pub mod Blocks
pub mod HubPath
pub mod Chains
pub mod Descriptors
pub mod Files
pub mod Handles
pub mod Libusb
pub mod Probing
pub mod LibusbTests
pub mod Paths
pub mod Parsing
