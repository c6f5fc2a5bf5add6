-- ===== src/Injector/Emulation.antt =====
-- What `ProcessIoException` of LptToUsbAdapter/LptPatchInjector/LptPatchInjector.c makes of a port
-- instruction of the program that is debugged.
use lpt_to_usb_adapter.Base.{
  ℕ, ◌+◌, ◌<◌, ◌≤◌, ◌≡◌, ◌≢◌, ◌⊎◌, refl, Bool, true, false, not, ◌||◌, some, List, ◌++◌, length,
  ◌==◌, ==_iff, if◌then◌else◌, u32, arith, Bool-cases, inl, inr,
}
use lpt_to_usb_adapter.Device.{Device}
use lpt_to_usb_adapter.Usb.Api.{Api, Host, ◌>>=◌, call}
use lpt_to_usb_adapter.UsbLpt.Commands.{UsbLpt}
use lpt_to_usb_adapter.Injector.Decode.{IoInstruction, decode_io_instruction}
use lpt_to_usb_adapter.Injector.Encoding.{
  Width, byte, word, dword, Operand, immediate, dx, Access, encode, port_of, bits, meaning,
  decode_io_instruction-encode,
}
use lpt_to_usb_adapter.Injector.Debuggee.{Debuggee, Context, Settings, Workers}
use lpt_to_usb_adapter.Injector.Patch.{patch_io_instruction}
use lpt_to_usb_adapter.Injector.Exception.{
  bypassed, decoded, emulate, mempatch, out_of_range, process_io_exception,
}

-- A program that is stopped: its memory is read, and its registers are read and written, without
-- a failure and without a touch of the adapter.
pub record IsStopped {W : Type 0} (debuggee : Debuggee W) (code : W → ℕ → List ℕ)
    (context : W → Context) (device : W → Device) : Type 0 where
  pub reads : (a : ℕ) (w : W) → debuggee.read_process_memory a 16 w ≡ (some (code w a), w)
  pub got : (w : W) → debuggee.get_thread_context w ≡ (some (context w), w)
  pub set_ok : (c : Context) (w : W) → (debuggee.set_thread_context c w).0 ≡ true
  pub set_context : (c : Context) (w : W) → context (debuggee.set_thread_context c w).1 ≡ c
  pub set_device : (c : Context) (w : W) → device (debuggee.set_thread_context c w).1 ≡ device w

-- At an address stands a port instruction, whatever follows it.
pub record Stands (code : List ℕ) (a : Access) : Type 0 where
  pub behind : List ℕ
  pub encoded : code ≡ encode a ++ behind
  pub sixteen : length code ≡ 16

pub is_16 : (xs : List ℕ) → length xs ≡ 16 → (length xs == 16) ≡ true
is_16 xs = (==_iff (length xs) 16).1

-- `PatchIoInstruction` refuses at once.
wide_or_long :
    (a : Access) (edx : ℕ)
    → (a.width ≢ byte) ⊎ (a.operand ≢ dx)
    → let io = meaning a edx in (not (io.io_size == 8) || not (io.instruction_size == 1)) ≡ true
wide_or_long a edx other = go a.width a.operand a.out other
  where
    go :
        (w : Width) (o : Operand) (d : Bool)
        → (w ≢ byte) ⊎ (o ≢ dx)
        → let io = meaning (record { width = w; operand = o; out = d }) edx in
          (not (io.io_size == 8) || not (io.instruction_size == 1)) ≡ true
    go byte dx d (inl differ) = absurd (differ refl)
    go byte dx d (inr differ) = absurd (differ refl)
    go byte (immediate n) d h = refl
    go word o d h = refl
    go dword o d h = refl

pub in_range :
    (settings : Settings) (io : IoInstruction)
    → io.io_size ≡ 8
    → settings.base_address ≤ io.port
    → io.port ≤ settings.base_address + 4
    → out_of_range settings io ≡ false
in_range settings io eight above below = ground arith

narrow : (w : Width) → (bits w == 8) ≡ true → w ≡ byte
narrow byte e = refl
narrow word e = ground (arith, e)
narrow dword e = ground (arith, e)

beyond :
    (settings : Settings) (a : Access) (edx : ℕ)
    → let port = port_of a.operand edx in
      (a.width ≢ byte) ⊎ ((port < settings.base_address) ⊎ (settings.base_address + 4 < port))
      → out_of_range settings (meaning a edx) ≡ true
beyond settings a edx far = elim (Bool-cases (bits a.width == 8)) [
  | inl eight ↦ ground (arith, narrow a.width eight)
  | inr wide ↦ rw wide refl
]

module _ {W : Type 0} (api : Api W) (debuggee : Debuggee W) (workers : Workers)
    (length_disasm : List ℕ → ℕ → ℕ) (code : W → ℕ → List ℕ) (context : W → Context)
    (device : W → Device) (t : IsStopped debuggee code context device) where
  -- A port instruction is fetched and decoded.
  pub process_io_exception-decoded :
      (settings : Settings) (lpt : UsbLpt) (address : ℕ) (s : Host W) (a : Access)
      → Stands (code s.world address) a
      → process_io_exception api debuggee workers length_disasm settings lpt address s ≡ (
          if settings.use_mempatch
          then mempatch api debuggee workers length_disasm
              (code s.world address)
              address
              (meaning a (context s.world).edx)
              s
          else emulate api debuggee workers length_disasm settings lpt
              (context s.world)
              (meaning a (context s.world).edx)
              s)
  unfolding process_io_exception
  process_io_exception-decoded settings lpt address s a st =
      let read : decode_io_instruction (code s.world address) (context s.world).edx
          ≡ some (meaning a (context s.world).edx) =
        rw st.encoded (decode_io_instruction-encode a (context s.world).edx st.behind) in
      rw
        (
          ◌>>=◌,
          call,
          t.reads address s.world,
          is_16 (code s.world address) st.sixteen,
          t.got s.world,
          decoded,
          read,
        )
        (elim (Bool-cases settings.use_mempatch) [ inl on ↦ rw on refl | inr off ↦ rw off refl ])

  -- With the patching mode on, a port instruction of the stopped program that is not 8 bits wide
  -- or names its port in the instruction is reported as handled, and nothing is changed, so the
  -- program goes on at the same instruction.
  pub process_io_exception-unpatched :
      (settings : Settings) (lpt : UsbLpt) (address : ℕ) (s : Host W) (a : Access)
      → settings.use_mempatch ≡ true
      → Stands (code s.world address) a
      → (a.width ≢ byte) ⊎ (a.operand ≢ dx)
      → process_io_exception api debuggee workers length_disasm settings lpt address s ≡ (true, s)
  unfolding process_io_exception patch_io_instruction
  process_io_exception-unpatched settings lpt address s a on st other =
      let io = meaning a (context s.world).edx in
      rw
        (
          process_io_exception-decoded settings lpt address s a st,
          on,
          wide_or_long a (context s.world).edx other,
        )
        refl

  -- With the patching mode off, a port instruction of the stopped program that is wider than 8
  -- bits, or names a port outside the five from the base address, and names no bypassed port, is
  -- reported as not handled, and nothing is changed.
  process_io_exception-refused :
      (settings : Settings) (lpt : UsbLpt) (address : ℕ) (s : Host W) (a : Access)
      → settings.use_mempatch ≡ false
      → Stands (code s.world address) a
      → bypassed settings.bypass_ports (port_of a.operand (context s.world).edx) ≡ false
      → (a.width ≢ byte)
        ⊎ ((port_of a.operand (context s.world).edx < settings.base_address)
            ⊎ (settings.base_address + 4 < port_of a.operand (context s.world).edx))
      → process_io_exception api debuggee workers length_disasm settings lpt address s ≡ (false, s)
  process_io_exception-refused settings lpt address s a off st clear far =
      rw
        (
          process_io_exception-decoded settings lpt address s a st,
          off,
          ◌>>=◌,
          clear,
          beyond settings a (context s.world).edx far,
        )
        refl

  -- With the patching mode off, a port instruction of any width to a bypassed port is skipped: it
  -- is reported as handled, the stopped program goes on behind it with its other registers as they
  -- were, and the adapter keeps its state.
  pub process_io_exception-bypassed :
      (settings : Settings) (lpt : UsbLpt) (address : ℕ) (s : Host W) (a : Access)
      → settings.use_mempatch ≡ false
      → Stands (code s.world address) a
      → bypassed settings.bypass_ports (port_of a.operand (context s.world).edx) ≡ true
      → let c = context s.world in
        let (done, s') =
          process_io_exception api debuggee workers length_disasm settings lpt address s in
        (done ≡ true)
        × (device s'.world ≡ device s.world)
        × (context s'.world ≡ record c { eip = u32 (c.eip + length (encode a)) })
  process_io_exception-bypassed settings lpt address s a off st skip =
      let c = context s.world in
      let next = record c { eip = u32 (c.eip + length (encode a)) } in
      rw (process_io_exception-decoded settings lpt address s a st, off, ◌>>=◌, skip)
        (t.set_ok next s.world, t.set_device next s.world, t.set_context next s.world)
