-- ===== src/Injector/Serving.antt =====
-- The port accesses that `ProcessIoException` of
-- LptToUsbAdapter/LptPatchInjector/LptPatchInjector.c lends to the adapter.
use lpt_to_usb_adapter.Base.{
  ℕ, ◌+◌, ◌-◌, ◌*◌, ◌/◌, ◌^◌, ◌≤◌, ◌≡◌, ◌∙◌, refl, true, false, List, length, u8, u32, arith,
}
use lpt_to_usb_adapter.Lpt.Pins.{Board}
use lpt_to_usb_adapter.Lpt.Driver
use lpt_to_usb_adapter.Device.{Device, reg_of}
use lpt_to_usb_adapter.Usb.Api.{Api, Host, ◌>>=◌}
use lpt_to_usb_adapter.UsbLpt.Commands.{UsbLpt, set_port8, get_port8}
use lpt_to_usb_adapter.Link.{IsLinked, set_port8-set_reg, get_port8-get_reg}
use lpt_to_usb_adapter.Injector.Encoding.{Operand, byte_access, encode, port_of, meaning}
use lpt_to_usb_adapter.Injector.Debuggee.{Debuggee, Context, Settings, Workers}
use lpt_to_usb_adapter.Injector.Exception.{bypassed, process_io_exception}
use lpt_to_usb_adapter.Injector.Emulation.{
  IsStopped, Stands, in_range, process_io_exception-decoded,
}

module _ {W : Type 0} (api : Api W) (debuggee : Debuggee W) (workers : Workers)
    (length_disasm : List ℕ → ℕ → ℕ) (code : W → ℕ → List ℕ) (context : W → Context)
    (device : W → Device) (t : IsStopped debuggee code context device) where
  module _ (board : Board) (l : IsLinked api board device) where
    -- With the patching mode off and a linked adapter without special endpoint: an 8-bit OUT of
    -- the stopped program, of either form, to one of the five ports from the base address that is
    -- not bypassed, is `LPT_SetReg` of that register with AL on the adapter; it is reported as
    -- handled, and the program goes on behind the instruction with its other registers as they
    -- were.
    pub process_io_exception-out :
        (settings : Settings) (lpt : UsbLpt) (address : ℕ) (s : Host W) (o : Operand)
        → settings.use_mempatch ≡ false
        → lpt.no_special_endpoint ≡ true
        → Stands (code s.world address) (byte_access o true)
        → bypassed settings.bypass_ports (port_of o (context s.world).edx) ≡ false
        → settings.base_address ≤ port_of o (context s.world).edx
        → port_of o (context s.world).edx ≤ settings.base_address + 4
        → let c = context s.world in
          let reg = reg_of (port_of o c.edx - settings.base_address) in
          let (done, s') =
            process_io_exception api debuggee workers length_disasm settings lpt address s in
          (done ≡ true)
          × (device s'.world ≡ record (device s.world) {
            mcu = (Driver.set_reg board reg (u8 c.eax) (device s.world).mcu).1;
          })
          × (context s'.world
              ≡ record c { eip = u32 (c.eip + length (encode (byte_access o true))) })
    unfolding process_io_exception
    process_io_exception-out settings lpt address s o off v1 st clear above below =
        let c = context s.world in
        let port = port_of o c.edx in
        let next = record c { eip = u32 (c.eip + length (encode (byte_access o true))) } in
        let s₁ = (set_port8 api lpt (port - settings.base_address) (u8 c.eax) s).1 in
        let twice : u8 (u8 c.eax) ≡ u8 c.eax = omega arith in
        let near = in_range settings (meaning (byte_access o true) c.edx) refl above below in
        let set =
          set_port8-set_reg api board device l lpt (port - settings.base_address) (u8 c.eax) s v1
            (omega arith) (omega arith) in
        rw
          (
            process_io_exception-decoded api debuggee workers length_disasm code context device t
                settings lpt address s (byte_access o true) st,
            off,
            ◌>>=◌,
            clear,
            near,
            twice,
            set.0,
          )
          (t.set_ok next s₁.world, t.set_device next s₁.world ∙ set.1, t.set_context next s₁.world)

    -- With the patching mode off and a linked adapter without special endpoint: an 8-bit IN of the
    -- stopped program, of either form, from one of the five ports from the base address that is
    -- not bypassed, is `LPT_GetReg` of that register on the adapter; it is reported as handled,
    -- the byte becomes AL, the rest of EAX stays, and the program goes on behind the instruction.
    pub process_io_exception-in :
        (settings : Settings) (lpt : UsbLpt) (address : ℕ) (s : Host W) (o : Operand)
        → settings.use_mempatch ≡ false
        → lpt.no_special_endpoint ≡ true
        → Stands (code s.world address) (byte_access o false)
        → bypassed settings.bypass_ports (port_of o (context s.world).edx) ≡ false
        → settings.base_address ≤ port_of o (context s.world).edx
        → port_of o (context s.world).edx ≤ settings.base_address + 4
        → let c = context s.world in
          let reg = reg_of (port_of o c.edx - settings.base_address) in
          let (got, mcu') = Driver.get_reg board reg (device s.world).mcu in
          let (done, s') =
            process_io_exception api debuggee workers length_disasm settings lpt address s in
          (done ≡ true)
          × (device s'.world ≡ record (device s.world) { mcu = mcu'; io_byte = got })
          × (context s'.world ≡ record c {
            eip = u32 (c.eip + length (encode (byte_access o false)));
            eax = c.eax / 2 ^ 8 * 2 ^ 8 + u8 got;
          })
    process_io_exception-in settings lpt address s o off v1 st clear above below =
        let c = context s.world in
        let port = port_of o c.edx in
        let reg = reg_of (port - settings.base_address) in
        let next = record c {
          eip = u32 (c.eip + length (encode (byte_access o false)));
          eax = c.eax / 2 ^ 8 * 2 ^ 8 + u8 (Driver.get_reg board reg (device s.world).mcu).0;
        } in
        let s₁ = (get_port8 api lpt (port - settings.base_address) s).1 in
        let near = in_range settings (meaning (byte_access o false) c.edx) refl above below in
        let read =
          get_port8-get_reg api board device l lpt (port - settings.base_address) s v1
            (omega arith) in
        rw
          (
            process_io_exception-decoded api debuggee workers length_disasm code context device t
                settings lpt address s (byte_access o false) st,
            off,
            ◌>>=◌,
            clear,
            near,
            read.0,
          )
          (t.set_ok next s₁.world, t.set_device next s₁.world ∙ read.1, t.set_context next s₁.world)
