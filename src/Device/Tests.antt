-- ===== src/Device/Tests.antt =====
-- Concrete requests to the adapter of Firmware/AVRUSBLPT/main.c.
use lpt_to_usb_adapter.Base.{◌≡◌, refl, List, [], ◌∷◌}
use lpt_to_usb_adapter.Lpt.Pins.{data_get}
use lpt_to_usb_adapter.Lpt.Epp.{epp_read, wait_ready}
use lpt_to_usb_adapter.Lpt.Driver.{init, set_mode, get_reg}
use lpt_to_usb_adapter.Lpt.Tests.{responder}
use lpt_to_usb_adapter.Lpt.Invariant.{IsValid}
use lpt_to_usb_adapter.Device.{
  SetupPacket, Version, function_setup, main, serve, usblpt_set_reg, usblpt_get_reg,
  usblpt_set_mode,
}
use lpt_to_usb_adapter.Device.Requests.{packet, serve-IsValid}

-- The build of a day in May 2021.
abbrev pub build : Version
build = record { revision = 1; day = 9; month = 5; year = 2021; hour = 12; minute = 0; second = 30 }

-- EPP mode, a data write, a data read, and a register that does not exist.
abbrev session : List SetupPacket
session =
    packet 0x40 usblpt_set_mode 2 0 0
    ∷ packet 0x40 usblpt_set_reg 4 0xa5 0
    ∷ packet 0xc0 usblpt_get_reg 4 0 1
    ∷ packet 0x40 usblpt_set_reg 9 0 0
    ∷ []

serve-IsValid_example :
    let d = serve responder session (main build) in
    IsValid d.mcu × (d.version ≡ record build { revision = 0 })
serve-IsValid_example = serve-IsValid responder build session

-- A data read of the session answers the byte that the device shows.
session_answer :
    let d = serve responder (packet 0x40 usblpt_set_mode 2 0 0 ∷ []) (main build) in
    (function_setup responder (packet 0xc0 usblpt_get_reg 4 0 1) d).0 ≡ 0xa5 ∷ []
unfolding function_setup serve main set_mode get_reg init epp_read wait_ready data_get
session_answer = refl
