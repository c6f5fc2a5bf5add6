-- ===== src/Injectee.antt =====
-- LptToUsbAdapter/LptPatchInjectee/LptPatchInjectee.c: the library inside the patched program.
pub mod Ports
pub mod Serving
pub mod Modes
pub mod Filters
pub mod Same
pub mod Hooks
pub mod Registry
pub mod Attach
pub mod Detaching
pub mod Tests
