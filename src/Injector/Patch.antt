-- ===== src/Injector/Patch.antt =====
-- `PatchIoInstruction` of LptToUsbAdapter/LptPatchInjector/LptPatchInjector.c, with logging off.
use lpt_to_usb_adapter.Base.{
  ℕ, zero, suc, ◌+◌, ◌-◌, Bool, false, not, ◌||◌, Option, none, some, List, [], ◌∷◌, ◌++◌, length,
  take, drop, replicate, ltb, ◌==◌, if◌then◌else◌, le32, u32,
}
use lpt_to_usb_adapter.Usb.Api.{M, pure, ◌>>=◌, call, and_then}
use lpt_to_usb_adapter.Injector.Debuggee.{Debuggee, Workers}

-- `JmpFar`: `push addr; ret`
abbrev pub jmp_far : ℕ → List ℕ
jmp_far addr = 0x68 ∷ (le32 addr ++ 0xc3 ∷ [])

-- The loop that counts whole instructions up to at least the size of `JmpFar`; `length_disasm`
-- of ld32.c is given an instruction and a limit. `none` is the early return, or fuel run out.
unfoldable pub covered : (List ℕ → ℕ → ℕ) → ℕ → List ℕ → ℕ → ℕ → Option ℕ
covered length_disasm zero inst_buf limit len_total = none
covered length_disasm (suc fuel) inst_buf limit len_total =
    let len_this = length_disasm (drop len_total inst_buf) (limit - len_total) in
    let rest = covered length_disasm fuel inst_buf limit (len_total + len_this) in
    if ltb len_total 6 then (if ltb len_this 1 then none else rest) else some len_total

-- `WriteProcessMemory` that wrote all.
abbrev pub write_memory : {W : Type 0} → Debuggee W → ℕ → List ℕ → M W Bool
write_memory debuggee address bytes = do
  written ← call (debuggee.write_process_memory address bytes)
  pure (elim written [ none ↦ false | some n ↦ n == length bytes ])

module _ {W : Type 0} (debuggee : Debuggee W) (workers : Workers)
    (length_disasm : List ℕ → ℕ → ℕ) where
  -- The writes, once the block for the worker is there.
  abbrev pub place : List ℕ → ℕ → ℕ → List ℕ → ℕ → ℕ → ℕ → M W Bool
  place inst_buf instruction_size address worker io_fn len_total remote =
      let moved = take (len_total - instruction_size) (drop instruction_size inst_buf) in
      let patch = jmp_far (u32 (remote + 4)) ++ replicate (len_total - 6) 0x90 in
      let back = jmp_far (u32 (address + len_total)) in
      and_then (write_memory debuggee remote worker) (
        and_then (write_memory debuggee remote (le32 io_fn)) (
          and_then (write_memory debuggee (u32 (remote + length worker)) moved) (
            and_then (pure (not (ltb (length inst_buf) len_total))) (
              and_then (write_memory debuggee address patch) (
                write_memory debuggee
                  (u32 (remote + (len_total - instruction_size) + length worker)) back)))))

  abbrev pub place_worker : List ℕ → ℕ → ℕ → Bool → ℕ → M W Bool
  place_worker inst_buf instruction_size address is_out_instruction len_total =
      let worker = if is_out_instruction then workers.out_byte_fn else workers.in_byte_fn in
      let io_fn = if is_out_instruction then workers.write_port8 else workers.read_port8 in
      do
        remote ← call (debuggee.virtual_alloc_ex (len_total - instruction_size + 6 + length worker))
        elim remote [
          | none ↦ pure false
          | some r ↦ place inst_buf instruction_size address worker io_fn len_total r
        ]

  -- `PatchIoInstruction`. Each round of the loop counts at least one byte, so that seven are
  -- enough.
  unfoldable pub patch_io_instruction : List ℕ → ℕ → ℕ → ℕ → Bool → M W Bool
  patch_io_instruction inst_buf io_size instruction_size address is_out_instruction =
      if not (io_size == 8) || not (instruction_size == 1)
      then pure false
      else elim (covered length_disasm 7 inst_buf io_size 0) [
        | none ↦ pure false
        | some len_total ↦
            place_worker inst_buf instruction_size address is_out_instruction len_total
      ]
