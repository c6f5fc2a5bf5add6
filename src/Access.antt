-- ===== src/Access.antt =====
-- LptToUsbAdapter/LptPortAccessDemo/LptPortAccessDemo.c: a program that uses a parallel port.
pub mod Texts
pub mod Demo
pub mod Timing
pub mod Driving
pub mod Showing
pub mod Tests
