-- ===== src/Injector/Quiet.antt =====
-- What serving an exception in LptToUsbAdapter/LptPatchInjector/LptPatchInjector.c leaves alone.
use lpt_to_usb_adapter.Base.{ℕ, ◌-◌, [], ◌∷◌, u8, ◌≡◌, false, Option, some, List, arith}
use lpt_to_usb_adapter.Device.{SetupPacket}
use lpt_to_usb_adapter.Usb.Api.{Api, Host}
use lpt_to_usb_adapter.Usb.Device.{
  UsbHandle, write_pipe_default_interface, read_pipe_default_interface, write_vendor_request,
  read_vendor_request,
}
use lpt_to_usb_adapter.UsbLpt.Command
use lpt_to_usb_adapter.UsbLpt.Commands.{UsbLpt, bulk_cmd, set_port8, get_port8}
use lpt_to_usb_adapter.Injector.Debuggee.{Debuggee, Context, Settings, Workers}
use lpt_to_usb_adapter.Injector.Decode.{IoInstruction}
use lpt_to_usb_adapter.Injector.Exception.{access, emulate, decoded, out_data, process_io_exception}

-- The transfers, and the calls on the program that is debugged, keep something of the world.
pub record AreQuiet {W A : Type 0} (api : Api W) (debuggee : Debuggee W) (observe : W → A)
    : Type 0 where
  pub malloc_kept : (n : ℕ) (w : W) → observe (api.malloc n w).1 ≡ observe w
  pub out_kept :
      (h : ℕ) (rq : SetupPacket) (bytes : List ℕ) (w : W)
      → observe (api.control_out h rq bytes w).1 ≡ observe w
  pub in_kept :
      (h : ℕ) (rq : SetupPacket) (n : ℕ) (w : W) → observe (api.control_in h rq n w).1 ≡ observe w
  pub write_kept :
      (h pipe : ℕ) (bytes : List ℕ) (w : W) → observe (api.write_pipe h pipe bytes w).1 ≡ observe w
  pub read_kept : (h pipe n : ℕ) (w : W) → observe (api.read_pipe h pipe n w).1 ≡ observe w
  pub memory_kept : (a n : ℕ) (w : W) → observe (debuggee.read_process_memory a n w).1 ≡ observe w
  pub get_kept : (w : W) → observe (debuggee.get_thread_context w).1 ≡ observe w
  pub set_kept : (c : Context) (w : W) → observe (debuggee.set_thread_context c w).1 ≡ observe w

module _ {W A : Type 0} (api : Api W) (debuggee : Debuggee W) (observe : W → A)
    (q : AreQuiet api debuggee observe) where
  -- Between two states it is kept, and no file or thread is opened or closed.
  abbrev pub Kept : Host W → Host W → Type 0
  Kept s s' = (observe s'.world ≡ observe s.world) × (s'.opened ≡ s.opened) × (s'.closed ≡ s.closed)

  bulk_cmd-Kept :
      (handle : UsbHandle) (cmd : ℕ) (bytes : List ℕ) (recv : Option (List ℕ × ℕ)) (s : Host W)
      → Kept s (bulk_cmd api handle cmd bytes recv s).1
  unfolding bulk_cmd write_pipe_default_interface read_pipe_default_interface
  bulk_cmd-Kept handle cmd bytes recv s = grind (arith, q.malloc_kept, q.write_kept, q.read_kept)

  set_port8-Kept :
      (lpt : UsbLpt) (reg byte : ℕ) (s : Host W) → Kept s (set_port8 api lpt reg byte s).1
  unfolding set_port8 write_vendor_request
  set_port8-Kept lpt reg byte s = grind (arith, q.out_kept, bulk_cmd-Kept)

  get_port8-Kept : (lpt : UsbLpt) (reg : ℕ) (s : Host W) → Kept s (get_port8 api lpt reg s).1
  unfolding get_port8 read_vendor_request
  get_port8-Kept lpt reg s =
      let piped = bulk_cmd-Kept lpt.usb_handles Command.get_reg (u8 reg ∷ []) (some ([], 1)) s in
      grind (arith, q.in_kept, piped)

  module _ (workers : Workers) (length_disasm : List ℕ → ℕ → ℕ) (settings : Settings) (lpt : UsbLpt)
      (off : settings.use_mempatch ≡ false) where
    access-Kept :
        (eax : ℕ) (io : IoInstruction) (s : Host W)
        → Kept s (access api debuggee workers length_disasm settings lpt eax io s).1
    access-Kept eax io s =
        let reg = io.port - settings.base_address in
        let written = set_port8-Kept lpt reg (u8 (out_data io.io_size eax)) s in
        let got = get_port8-Kept lpt reg s in grind (arith, written, got)

    emulate-Kept :
        (c : Context) (io : IoInstruction) (s : Host W)
        → Kept s (emulate api debuggee workers length_disasm settings lpt c io s).1
    emulate-Kept c io s = grind (arith, access-Kept c.eax io s, q.set_kept)

    decoded-Kept :
        (address : ℕ) (instr : List ℕ) (c : Context) (s : Host W)
        → Kept s (decoded api debuggee workers length_disasm settings lpt address instr c s).1
    decoded-Kept address instr c s = grind (arith, emulate-Kept, off)

    -- Without the patching mode.
    pub process_io_exception-Kept :
        (address : ℕ) (s : Host W)
        → Kept s (process_io_exception api debuggee workers length_disasm settings lpt address s).1
    unfolding process_io_exception
    process_io_exception-Kept address s = grind (arith, decoded-Kept, q.memory_kept, q.get_kept)
