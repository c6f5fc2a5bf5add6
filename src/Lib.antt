-- ===== src/Lib.antt =====
-- The USB adapter for the parallel port: its firmware, the host's library that drives it, and the
-- injector that lends it to programs which use a real port.
--
-- A program executes port instructions. The injector (LptToUsbAdapter/LptPatchInjector) serves
-- them as a debugger, or patches them into calls of the injectee
-- (LptToUsbAdapter/LptPatchInjectee); both call the library (LptToUsbAdapter/UsbLptLib), which
-- sends vendor requests, or commands on two pipes to adapters from the third version on. The
-- firmware (Firmware/AVRUSBLPT) answers a vendor request by a call of its port driver.
--
-- Base: shared names; C arrays as lists, fixed-width values as numbers, memories as functions.
-- Lpt, Firmware/AVRUSBLPT/lpt.c: `Pins` has the registers, the statics (`Mcu`) and the macros,
-- `Epp` has `EppWrite` and `EppRead`, `Driver` has `LPT_Init`, `LPT_SetMode`, `LPT_SetReg` and
-- `LPT_GetReg`. What the input registers show is a function of the number of the volatile read
-- and of the output registers (`Board`), and is arbitrary; the delays leave no other trace.
-- `Lines`, `Handshake`, `Cycle`, `Invariant`, `Registers` and `Direction` are about it.
-- Device, Firmware/AVRUSBLPT/main.c: `usbFunctionSetup`, the descriptors, `main` up to the event
-- loop, and the loop over a list of setup packets; `Requests` is about them. `Eeprom` has
-- `usbFunctionRead` and `usbFunctionWrite`.
-- Usb, LptToUsbAdapter/UsbLptLib/UsbWrappers.c on Windows: `Api` has the C, Win32 and WinUSB
-- calls as parameters, and counts what is taken and given back; `Device` has the functions on an
-- open device, `Paths` the parsers of device paths and locations, for which `_stscanf_s` is a
-- parameter; `Leaks` and `Parsing` are about them. `Setup` has the calls that find devices;
-- `Strings` and `Config` read descriptors, `Hubs` opens the hub of a device, `Enumeration` makes
-- the list of devices and gives it back; `Descriptors`, `Chains`, `Blocks`, `HubPath`, `Files` and
-- `Handles` are about them. `Libusb` has the part of the file for other systems over the calls of
-- libusb, and `Probing` is about it.
-- UsbLpt, LptToUsbAdapter/UsbLptLib/UsbLptLib.c: `Commands`, `Dfu` for the firmware update, and
-- `Listing` for the list of adapters and the opening of one; `Update`, `Blocks`, `Loading`,
-- `Retrying` and `Flashing` are about the update, `Adapters` and `Texts` about the list,
-- which `Identity` and `Picking` describe.
-- Link: the library's calls against the firmware, over a transport that delivers.
-- Injector, LptToUsbAdapter/LptPatchInjector/LptPatchInjector.c: `Decode`, `Patch` and
-- `Exception`, over the calls on the program that is debugged (`Debuggee`), `Modules` for the
-- addresses in it, `Loop` for the debug events, and `Startup` for the rest of `wWinMain`;
-- `LoadSettings` and `Defaults`, LptToUsbAdapter/LptPatchInjector/CommonCode.c, for the settings,
-- and `Log` and `Dump` for `LogLine` and `PrintInstructionDumpAt`, with the streams of the C
-- library; `Encoding`, `Covering`, `Emulation`, `Serving`, `Quiet`, `Session`, `Answering`,
-- `Refusing`, `Completing` and `Splitting` are about them, `Spelling` about the names of the
-- modes, `Offsets` and `Locating` about the addresses,
-- `Memory`, `Layout`, `Placing` and `Patching` about the patch in the memory of the program,
-- `Slots`, `Lines` and `Logging` about the log files, and `Dumping` about the dumps.
-- Injectee, LptToUsbAdapter/LptPatchInjectee/LptPatchInjectee.c: `Ports` has `WritePort8` and
-- `ReadPort8` behind `Init`, `Filters` and `Registry` have the filters of the system's functions,
-- `Attach` has `Init` and `DllMain`; `Serving`, `Modes`, `Hooks` and `Detaching` are about them.
-- Access, LptToUsbAdapter/LptPortAccessDemo/LptPortAccessDemo.c: `Demo` and `Timing` have the modes
-- and `main`, over port instructions, a console and a clock; `Driving` and `Showing` are about
-- them on the registers of the firmware, as the injector serves the ports.
--
-- Loops: the wait for nBUSY counts down from 10 as in the source. The loop over firmware blocks is
-- recursion on fuel; more fuel than the image has bytes is enough, since every block is at least
-- one byte. The loop over instructions in `PatchIoInstruction` counts at least one of six bytes in
-- each round, so seven rounds are enough. The enumeration has fuel for the devices that the system
-- lists, and the debug loop for the events that come; more fuel than these is enough.
--
-- The modes of the demonstration program have no end, and run for a given number of rounds.
--
-- Not modelled: the V-USB stack, whose call of `usbFunctionSetup` is the interface here; ld32.c,
-- whose `length_disasm` is a parameter; the calls of iniparser, which are parameters; the injector's
-- own calls of `LogLine` and `PrintInstructionDumpAt`, since the setting for logging is taken to be
-- off; windows and messages; the firmware image, which is an argument.
pub mod Base
pub mod Lpt
pub mod Device
pub mod Usb
pub mod UsbLpt
pub mod Link
pub mod Injector
pub mod Injectee
pub mod Access
