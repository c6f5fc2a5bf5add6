-- ===== src/Injector/Refusing.antt =====
-- How `wWinMain` of LptToUsbAdapter/LptPatchInjector/LptPatchInjector.c goes on from the mode that
-- the settings name.
use lpt_to_usb_adapter.Usb.Api.{Api}
use lpt_to_usb_adapter.UsbLpt.Commands.{UsbLpt}
use lpt_to_usb_adapter.Injector.Debuggee.{Debuggee}
