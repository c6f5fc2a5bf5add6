-- ===== src/Injector/Exception.antt =====
-- `ProcessIoException` of LptToUsbAdapter/LptPatchInjector/LptPatchInjector.c, with logging off.
use lpt_to_usb_adapter.Base.{
  ℕ, ◌+◌, ◌-◌, ◌*◌, ◌/◌, ◌^◌, Bool, true, false, not, ◌||◌, Option, none, some, List, [], ◌∷◌,
  length, ltb, ◌==◌, if◌then◌else◌, u8, u16, u32,
}
use lpt_to_usb_adapter.Usb.Api.{Api, M, pure, ◌>>=◌, call}
use lpt_to_usb_adapter.UsbLpt.Commands.{UsbLpt, set_port8, get_port8}
use lpt_to_usb_adapter.Injector.Decode.{IoInstruction, decode_io_instruction}
use lpt_to_usb_adapter.Injector.Debuggee.{Debuggee, Context, Settings, Workers}
use lpt_to_usb_adapter.Injector.Patch.{patch_io_instruction}

-- Whether a port stands in `bypass_ports`.
abbrev pub bypassed : List ℕ → ℕ → Bool
bypassed [] port = false
bypassed (p ∷ ports) port = if port == p then true else bypassed ports port

-- The bytes of a register that an access of so many bits writes.
abbrev pub out_data : ℕ → ℕ → ℕ
out_data io_size eax = if io_size == 32 then eax else if io_size == 16 then u16 eax else u8 eax

-- EAX after an access of so many bits has read a value.
abbrev pub merge : ℕ → ℕ → ℕ → ℕ
merge io_size eax read =
    if io_size == 32
    then read
    else if io_size == 16
    then eax / 2 ^ 16 * 2 ^ 16 + u16 read
    else eax / 2 ^ 8 * 2 ^ 8 + u8 read

-- `io_size != 8 || port < base_address || port > base_address + 4`
abbrev pub out_of_range : Settings → IoInstruction → Bool
out_of_range settings io =
    not (io.io_size == 8)
    || ltb io.port settings.base_address
    || ltb (settings.base_address + 4) io.port

module _ {W : Type 0} (api : Api W) (debuggee : Debuggee W) (workers : Workers)
    (length_disasm : List ℕ → ℕ → ℕ) where
  -- The access to the adapter: `EAX` behind it.
  abbrev pub out_access : UsbLpt → ℕ → ℕ → IoInstruction → M W (Option ℕ)
  out_access lpt reg eax io = do
    done ← set_port8 api lpt reg (u8 (out_data io.io_size eax))
    pure (if done then some eax else none)

  abbrev pub in_access : UsbLpt → ℕ → ℕ → IoInstruction → M W (Option ℕ)
  in_access lpt reg eax io = do
    r ← get_port8 api lpt reg
    pure (elim r [ none ↦ none | some temp ↦ some (merge io.io_size eax temp) ])

  abbrev pub access : Settings → UsbLpt → ℕ → IoInstruction → M W (Option ℕ)
  access settings lpt eax io =
      let reg = io.port - settings.base_address in
      if bypassed settings.bypass_ports io.port
      then pure (some eax)
      else if out_of_range settings io
      then pure none
      else if io.out_direction
      then out_access lpt reg eax io
      else in_access lpt reg eax io

  abbrev pub resume : Context → IoInstruction → ℕ → M W Bool
  resume context io eax = call (
      debuggee.set_thread_context
        (record context { eip = u32 (context.eip + io.instruction_size); eax = eax }))

  abbrev pub emulate : Settings → UsbLpt → Context → IoInstruction → M W Bool
  emulate settings lpt context io = do
    r ← access settings lpt context.eax io
    elim r [ none ↦ pure false | some eax ↦ resume context io eax ]

  -- The result of `PatchIoInstruction` is not looked at.
  abbrev pub mempatch : List ℕ → ℕ → IoInstruction → M W Bool
  mempatch instr address io = do
    done ←
        patch_io_instruction debuggee workers length_disasm instr io.io_size io.instruction_size
          address io.out_direction
    pure true

  abbrev pub decoded : Settings → UsbLpt → ℕ → List ℕ → Context → M W Bool
  decoded settings lpt address instr context = elim (decode_io_instruction instr context.edx) [
    | none ↦ pure false
    | some io ↦
        if settings.use_mempatch then mempatch instr address io else emulate settings lpt context io
  ]

  abbrev with_context : Settings → UsbLpt → ℕ → List ℕ → M W Bool
  with_context settings lpt address instr = do
    r ← call debuggee.get_thread_context
    elim r [ none ↦ pure false | some context ↦ decoded settings lpt address instr context ]

  -- `ProcessIoException`
  unfoldable pub process_io_exception : Settings → UsbLpt → ℕ → M W Bool
  process_io_exception settings lpt address = do
    r ← call (debuggee.read_process_memory address 16)
    elim r [
      | none ↦ pure false
      | some instr ↦
          if not (length instr == 16) then pure false else with_context settings lpt address instr
    ]
