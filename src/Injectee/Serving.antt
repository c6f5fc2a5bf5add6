-- ===== src/Injectee/Serving.antt =====
-- What the functions of LptToUsbAdapter/LptPatchInjectee/LptPatchInjectee.c that a patched program
-- calls do to the adapter.
use lpt_to_usb_adapter.Base.{
  ℕ, ◌-◌, ◌^◌, ◌<◌, ◌≤◌, ◌≡◌, ◌⊎◌, refl, true, false, List, ltb, if◌then◌else◌, arith,
}
use lpt_to_usb_adapter.Lpt.Pins.{Board}
use lpt_to_usb_adapter.Lpt.Driver
use lpt_to_usb_adapter.Device.{Device, reg_of}
use lpt_to_usb_adapter.Usb.Api.{Api, Host, ◌>>=◌}
use lpt_to_usb_adapter.UsbLpt.Commands.{UsbLpt}
use lpt_to_usb_adapter.Link.{IsLinked, set_port8-set_reg, get_port8-get_reg}
use lpt_to_usb_adapter.Injector.Exception.{bypassed}
use lpt_to_usb_adapter.Injectee.Ports.{died, returned, register, write_port8, read_port8}

near : (port : ℕ) → 0x378 ≤ port → port ≤ 0x37c → register port ≡ port - 0x378
near port above below = omega arith

module _ {W : Type 0} (api : Api W) where
  -- A write and a read of any port of 16 bits but the five from 0x378 on, if it is not bypassed,
  -- end the program before a transfer.
  pub port8-other_died :
      (bypass_ports : List ℕ) (lpt : UsbLpt) (port byte : ℕ) (s : Host W)
      → port < 2 ^ 16
      → (port < 0x378) ⊎ (0x37c < port)
      → bypassed bypass_ports port ≡ false
      → (write_port8 api bypass_ports lpt port byte s ≡ (died, s))
        × (read_port8 api bypass_ports lpt port s ≡ (died, s))
  unfolding write_port8 read_port8
  port8-other_died bypass_ports lpt port byte s fits far clear =
      let beyond : ltb 4 (register port) ≡ true = ground arith in
      (rw (clear, beyond) refl, rw (clear, beyond) refl)

  module _ (board : Board) (device : W → Device) (l : IsLinked api board device) where
    -- Over a linked adapter without special endpoint, a write of a byte to one of the five ports
    -- from 0x378 on that is not bypassed is `LPT_SetReg` of that register and byte on the adapter,
    -- and returns.
    pub write_port8-set_reg :
        (bypass_ports : List ℕ) (lpt : UsbLpt) (port byte : ℕ) (s : Host W)
        → lpt.no_special_endpoint ≡ true
        → bypassed bypass_ports port ≡ false
        → 0x378 ≤ port
        → port ≤ 0x37c
        → byte < 256
        → let (r, s') = write_port8 api bypass_ports lpt port byte s in
          (r ≡ returned tt)
          × (device s'.world ≡ record (device s.world) {
            mcu = (Driver.set_reg board (reg_of (port - 0x378)) byte (device s.world).mcu).1;
          })
    unfolding write_port8
    write_port8-set_reg bypass_ports lpt port byte s v1 clear above below small =
        let set =
          set_port8-set_reg api board device l lpt (port - 0x378) byte s v1 (omega arith) small in
        let inside : ltb 4 (port - 0x378) ≡ false = ground arith in
        rw (clear, near port above below, inside, ◌>>=◌, set.0) (refl, set.1)

    -- Over a linked adapter without special endpoint, a read of one of the five ports from 0x378
    -- on that is not bypassed returns what `LPT_GetReg` of that register returns on the adapter.
    pub read_port8-get_reg :
        (bypass_ports : List ℕ) (lpt : UsbLpt) (port : ℕ) (s : Host W)
        → lpt.no_special_endpoint ≡ true
        → bypassed bypass_ports port ≡ false
        → 0x378 ≤ port
        → port ≤ 0x37c
        → let (byte, mcu') = Driver.get_reg board (reg_of (port - 0x378)) (device s.world).mcu in
          let (r, s') = read_port8 api bypass_ports lpt port s in
          (r ≡ returned byte)
          × (device s'.world ≡ record (device s.world) { mcu = mcu'; io_byte = byte })
    unfolding read_port8
    read_port8-get_reg bypass_ports lpt port s v1 clear above below =
        let read = get_port8-get_reg api board device l lpt (port - 0x378) s v1 (omega arith) in
        let inside : ltb 4 (port - 0x378) ≡ false = ground arith in
        rw (clear, near port above below, inside, if◌then◌else◌, ◌>>=◌, read.0) (refl, read.1)
