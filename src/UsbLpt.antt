-- ===== src/UsbLpt.antt =====
-- LptToUsbAdapter/UsbLptLib/UsbLptLib.c: the host's library for the adapter.
pub mod Tests
pub mod Command
pub mod Commands
pub mod Dfu
pub mod Blocks
pub mod Update
pub mod Listing
pub mod Loading
pub mod Retrying
pub mod Flashing
pub mod FlashingTests
pub mod ListingTests
pub mod Texts
pub mod Adapters
pub mod Identity
pub mod Picking
