-- ===== src/Lpt.antt =====
-- Firmware/AVRUSBLPT/lpt.c and lpt.h: the parallel port of the adapter.
pub mod Tests
pub mod Pins
pub mod Epp
pub mod Driver
pub mod Cycle
pub mod Invariant
pub mod Registers
pub mod Direction
pub mod Handshake
pub mod Lines
