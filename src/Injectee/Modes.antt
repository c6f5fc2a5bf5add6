-- ===== src/Injectee/Modes.antt =====
-- The two ways of LptToUsbAdapter/LptPatchInjector/LptPatchInjector.c to serve a port access side
-- by side: the emulation of the instruction, and the call of `WritePort8` or `ReadPort8` of
-- LptToUsbAdapter/LptPatchInjectee/LptPatchInjectee.c that takes its place.
use lpt_to_usb_adapter.Base.{
  ℕ, ◌+◌, ◌-◌, ◌*◌, ◌/◌, ◌^◌, ◌≤◌, ◌≡◌, ◌⊎◌, inl, inr, refl, sym, ap, ◌∙◌, if◌then◌else◌, true,
  false, List, u8, arith,
}
use lpt_to_usb_adapter.Lpt.Pins.{Board}
use lpt_to_usb_adapter.Lpt.Driver
use lpt_to_usb_adapter.Device.{Device, reg_of}
use lpt_to_usb_adapter.Usb.Api.{Api, Host}
use lpt_to_usb_adapter.UsbLpt.Commands.{UsbLpt}
use lpt_to_usb_adapter.Link.{IsLinked}
use lpt_to_usb_adapter.Injector.Encoding.{Operand, byte_access, port_of}
use lpt_to_usb_adapter.Injector.Debuggee.{Debuggee, Context, Settings, Workers}
use lpt_to_usb_adapter.Injector.Exception.{bypassed, process_io_exception}
use lpt_to_usb_adapter.Injector.Emulation.{IsStopped, Stands, process_io_exception-bypassed}
use lpt_to_usb_adapter.Injector.Serving.{process_io_exception-out, process_io_exception-in}
use lpt_to_usb_adapter.Injectee.Ports.{returned, write_port8, read_port8}
use lpt_to_usb_adapter.Injectee.Serving.{write_port8-set_reg, read_port8-get_reg}

module _ {W : Type 0} (api : Api W) (bypass_ports : List ℕ) (lpt : UsbLpt) (port : ℕ) (s : Host W)
    (skip : bypassed bypass_ports port ≡ true) where
  write_port8-bypassed :
      (byte : ℕ) → write_port8 api bypass_ports lpt port byte s ≡ (returned tt, s)
  unfolding write_port8
  write_port8-bypassed byte = rw skip refl

  read_port8-bypassed : read_port8 api bypass_ports lpt port s ≡ (returned 0, s)
  unfolding read_port8
  read_port8-bypassed = rw skip refl

module _ {W : Type 0} (api : Api W) (debuggee : Debuggee W) (workers : Workers)
    (length_disasm : List ℕ → ℕ → ℕ) (code : W → ℕ → List ℕ) (context : W → Context)
    (device : W → Device) (t : IsStopped debuggee code context device) (board : Board)
    (l : IsLinked api board device) where
  -- With the base address 0x378 and a linked adapter without special endpoint, an 8-bit OUT of
  -- either form to one of its five ports or to a bypassed port does to the adapter the same when it
  -- is emulated as when `WritePort8` is called with its port and AL: the one reports it as handled,
  -- the other returns, and the adapter's state is then the same.
  pub process_io_exception-write_port8 :
      (settings : Settings) (lpt : UsbLpt) (address : ℕ) (s : Host W) (o : Operand)
      → settings.use_mempatch ≡ false
      → settings.base_address ≡ 0x378
      → lpt.no_special_endpoint ≡ true
      → Stands (code s.world address) (byte_access o true)
      → (bypassed settings.bypass_ports (port_of o (context s.world).edx) ≡ true)
        ⊎ ((bypassed settings.bypass_ports (port_of o (context s.world).edx) ≡ false)
            × (0x378 ≤ port_of o (context s.world).edx)
            × (port_of o (context s.world).edx ≤ 0x37c))
      → let c = context s.world in
        let (done, s₁) =
          process_io_exception api debuggee workers length_disasm settings lpt address s in
        let (r, s₂) = write_port8 api settings.bypass_ports lpt (port_of o c.edx) (u8 c.eax) s in
        (done ≡ true) × (r ≡ returned tt) × (device s₁.world ≡ device s₂.world)
  process_io_exception-write_port8 settings lpt address s o off base v1 st (inl skip) =
      let emulated =
        process_io_exception-bypassed api debuggee workers length_disasm code context device t
          settings lpt address s (byte_access o true) off st skip in
      let port = port_of o (context s.world).edx in
      rw (write_port8-bypassed api settings.bypass_ports lpt port s skip (u8 (context s.world).eax))
        (emulated.0, refl, emulated.1)
  process_io_exception-write_port8 settings lpt address s o off base v1 st
        (inr (clear, above, below)) =
      let c = context s.world in
      let port = port_of o c.edx in
      let emulated =
        process_io_exception-out api debuggee workers length_disasm code context device t board l
          settings lpt address s o off v1 st clear (rw base above) (rw base below) in
      let called =
        write_port8-set_reg api board device l settings.bypass_ports lpt port (u8 c.eax) s v1 clear
          above below (omega arith) in
      let at = λ (first : ℕ). record (device s.world) {
        mcu = (Driver.set_reg board (reg_of (port - first)) (u8 c.eax) (device s.world).mcu).1;
      } in
      (emulated.0, called.0, emulated.1 ∙ (ap at base ∙ sym called.1))

  -- With the base address 0x378 and a linked adapter without special endpoint, an 8-bit IN of
  -- either form from one of its five ports or from a bypassed port does to the adapter the same
  -- when it is emulated as when `ReadPort8` is called with its port. `ReadPort8` returns: from one
  -- of the five ports the byte that the emulation puts into AL, from a bypassed one 0, where the
  -- emulation keeps AL.
  pub process_io_exception-read_port8 :
      (settings : Settings) (lpt : UsbLpt) (address : ℕ) (s : Host W) (o : Operand)
      → settings.use_mempatch ≡ false
      → settings.base_address ≡ 0x378
      → lpt.no_special_endpoint ≡ true
      → Stands (code s.world address) (byte_access o false)
      → (bypassed settings.bypass_ports (port_of o (context s.world).edx) ≡ true)
        ⊎ ((bypassed settings.bypass_ports (port_of o (context s.world).edx) ≡ false)
            × (0x378 ≤ port_of o (context s.world).edx)
            × (port_of o (context s.world).edx ≤ 0x37c))
      → let c = context s.world in
        let skip = bypassed settings.bypass_ports (port_of o c.edx) in
        let (done, s₁) =
          process_io_exception api debuggee workers length_disasm settings lpt address s in
        let (r, s₂) = read_port8 api settings.bypass_ports lpt (port_of o c.edx) s in
        (byte : ℕ) × (r ≡ returned (if skip then 0 else byte))
        × (done ≡ true)
        × ((context s₁.world).eax ≡ (if skip then c.eax else c.eax / 2 ^ 8 * 2 ^ 8 + u8 byte))
        × (device s₁.world ≡ device s₂.world)
  process_io_exception-read_port8 settings lpt address s o off base v1 st (inl skip) =
      let (done, kept, next) =
        process_io_exception-bypassed api debuggee workers length_disasm code context device t
          settings lpt address s (byte_access o false) off st skip in
      let port = port_of o (context s.world).edx in
      rw (skip, read_port8-bypassed api settings.bypass_ports lpt port s skip)
        (0, refl, done, ap (λ (c : Context). c.eax) next, kept)
  process_io_exception-read_port8 settings lpt address s o off base v1 st
        (inr (clear, above, below)) =
      let port = port_of o (context s.world).edx in
      let (done, emulated, next) =
        process_io_exception-in api debuggee workers length_disasm code context device t board l
          settings lpt address s o off v1 st clear (rw base above) (rw base below) in
      let (r, called) =
        read_port8-get_reg api board device l settings.bypass_ports lpt port s v1 clear above
          below in
      let got = λ (first : ℕ). Driver.get_reg board (reg_of (port - first)) (device s.world).mcu in
      let at =
        λ (first : ℕ). record (device s.world) { mcu = (got first).1; io_byte = (got first).0 } in
      let same = λ (first : ℕ). (context s.world).eax / 2 ^ 8 * 2 ^ 8 + u8 (got first).0 in
      rw clear (
        (got 0x378).0,
        r,
        done,
        ap (λ (c : Context). c.eax) next ∙ ap same base,
        emulated ∙ (ap at base ∙ sym called),
      )
