-- ===== src/UsbLpt/Command.antt =====
-- The request codes, `USBLPT_COMMAND`, of LptToUsbAdapter/UsbLptLib/UsbLptLib.c.
use lpt_to_usb_adapter.Base.{ℕ}

-- `USBLPT_COMMAND`
abbrev pub get_version : ℕ
get_version = 0x07

abbrev pub set_mode : ℕ
set_mode = 0x08

abbrev pub set_reg : ℕ
set_reg = 0x09

abbrev pub get_reg : ℕ
get_reg = 0x0a

abbrev pub reset : ℕ
reset = 0x40

abbrev pub force_bootloader : ℕ
force_bootloader = 0x41

abbrev pub dfu_erase : ℕ
dfu_erase = 0x80

abbrev pub dfu_ldblock : ℕ
dfu_ldblock = 0x81

abbrev pub dfu_finalize : ℕ
dfu_finalize = 0x82
