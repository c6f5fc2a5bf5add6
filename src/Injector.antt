-- ===== src/Injector.antt =====
-- LptToUsbAdapter/LptPatchInjector/LptPatchInjector.c: the debugger that serves the port
-- instructions of a program.
pub mod Decode
pub mod Encoding
pub mod Debuggee
pub mod Patch
pub mod Covering
pub mod Memory
pub mod Layout
pub mod Placing
pub mod Patching
pub mod PatchTests
pub mod Exception
pub mod Emulation
pub mod Serving
pub mod Modules
pub mod Locating
pub mod Offsets
pub mod LocatingTests
pub mod Loop
pub mod Startup
pub mod Defaults
pub mod LoadSettings
pub mod Log
pub mod Slots
pub mod Lines
pub mod Logging
pub mod Dump
pub mod Dumping
pub mod LogTests
pub mod Completing
pub mod Splitting
pub mod SettingsTests
pub mod Refusing
pub mod Spelling
pub mod Quiet
pub mod Session
pub mod Answering
pub mod LoopTests
pub mod Tests
