-- ===== src/Injector/Patching.antt =====
-- That `PatchIoInstruction` of LptToUsbAdapter/LptPatchInjector/LptPatchInjector.c redirects the
-- instruction, as the memory of the program shows.
use mathlib.Core.Path.{subst}
use lpt_to_usb_adapter.Base.{
  ◌==◌, ◌||◌, ℕ, ◌+◌, ◌-◌, ◌<◌, ◌≤◌, ◌^◌, not, ltb, ◌≡◌, refl, sym, ap, ◌∙◌, ◌⊎◌, inl, inr, Bool,
  true, false, not, ltb, some, List, length, if◌then◌else◌, Option-cases, Bool-cases, arith,
}
use lpt_to_usb_adapter.Usb.Api.{Host, call, ◌>>=◌}
use lpt_to_usb_adapter.Injector.Debuggee.{Debuggee, Workers}
use lpt_to_usb_adapter.Injector.Patch.{covered, place, place_worker, patch_io_instruction}
use lpt_to_usb_adapter.Injector.Memory.{IsMemory}
use lpt_to_usb_adapter.Injector.Covering.{covered-enough}
use lpt_to_usb_adapter.Injector.Placing.{IsPatched, place-fits, place-IsPatched}

module _ {W : Type 0} (debuggee : Debuggee W) (memory : W → ℕ → ℕ) (mapped : W → ℕ → Bool)
    (laws : IsMemory debuggee memory mapped) (workers : Workers)
    (length_disasm : List ℕ → ℕ → ℕ) where
  patch-place_worker :
      (inst_buf : List ℕ) (io_size instruction_size address : ℕ) (out : Bool) (s : Host W)
      → (patch_io_instruction debuggee workers length_disasm inst_buf io_size instruction_size
          address out s).0
        ≡ true
      → (len_total : ℕ) × (covered length_disasm 7 inst_buf io_size 0 ≡ some len_total)
        × (io_size ≡ 8)
        × (instruction_size ≡ 1)
        × (patch_io_instruction debuggee workers length_disasm inst_buf io_size instruction_size
              address out s
            ≡ place_worker debuggee workers length_disasm inst_buf 1 address out len_total s)
  unfolding patch_io_instruction
  patch-place_worker inst_buf io_size instruction_size address out s e =
      let bad = not (io_size == 8) || not (instruction_size == 1) in
      let ok : bad ≡ false = ground (arith, e) in
      let one : instruction_size ≡ 1 = ground (arith, ok) in
      elim (Option-cases (covered length_disasm 7 inst_buf io_size 0)) [
        | inl failed ↦ absurd (ground (arith, e, ok, failed))
        | inr (len_total, known) ↦ (
          len_total,
          known,
          ground (arith, ok),
          one,
          rw (patch_io_instruction, ok, known)
              (ap
                (λ (k : ℕ).
                  place_worker debuggee workers length_disasm inst_buf k address out len_total s)
                one),
        )
      ]

  place_worker-place :
      (inst_buf : List ℕ) (address : ℕ) (out : Bool) (len_total : ℕ) (s : Host W)
      → (place_worker debuggee workers length_disasm inst_buf 1 address out len_total s).0 ≡ true
      → let worker = if out then workers.out_byte_fn else workers.in_byte_fn in
        let io_fn = if out then workers.write_port8 else workers.read_port8 in
        let size = len_total - 1 + 6 + length worker in
        (r : ℕ) × ((debuggee.virtual_alloc_ex size s.world).0 ≡ some r)
        × (place_worker debuggee workers length_disasm inst_buf 1 address out len_total s
            ≡ place debuggee workers length_disasm inst_buf 1 address worker io_fn len_total r
                (record s { world = (debuggee.virtual_alloc_ex size s.world).1 }))
  place_worker-place inst_buf address out len_total s e =
      elim (Option-cases
        (debuggee.virtual_alloc_ex
          (len_total - 1 + 6 + length (if out then workers.out_byte_fn else workers.in_byte_fn))
          s.world).0) [
            | inl failed ↦ absurd (ground (arith, e, failed))
            | inr (r, got) ↦ (r, got, rw (place_worker, ◌>>=◌, call, got) refl)
          ]

  -- A fresh block lies apart from bytes that are mapped.
  fresh-apart :
      (n k r address : ℕ) (w : W)
      → (debuggee.virtual_alloc_ex n w).0 ≡ some r
      → 0 < n
      → 0 < k
      → ((i : ℕ) → i < k → mapped w (address + i) ≡ true)
      → (address + k ≤ r) ⊎ (r + n ≤ address)
  fresh-apart n k r address w got some_n some_k there = elim (Bool-cases (ltb address r)) [
    | inl before ↦ elim (Bool-cases (ltb r (address + k))) [
      | inl inside ↦
          let e : address + (r - address) ≡ r + 0 = ground (arith, before) in
          absurd (
            ground (
              arith,
              inside,
              before,
              e,
              laws.fresh n r w 0 got some_n,
              ap (mapped w) e,
              there (r - address) (ground (arith, inside, before)),
            ))
      | inr outside ↦ inl (ground (arith, outside))
    ]
    | inr after ↦ elim (Bool-cases (ltb address (r + n))) [
      | inl inside ↦
          let e : r + (address - r) ≡ address + 0 = ground (arith, after) in
          absurd (
            ground (
              arith,
              inside,
              after,
              e,
              laws.fresh n r w (address - r) got (ground (arith, inside, after)),
              ap (mapped w) e,
              there 0 some_k,
            ))
      | inr outside ↦ inr (ground (arith, outside))
    ]
  ]

  -- An instruction is patched only if it is a byte access through DX. Then, in a memory where
  -- writing changes the bytes given and allocation takes what was not mapped, and with the
  -- instruction's bytes mapped below the end of the address space and workers of at least four
  -- bytes, a patch that succeeds leaves this: at the instruction a jump to four bytes into a new
  -- block and NOPs to the end of the whole instructions counted, at least six bytes and within the
  -- buffer; in the block the address of the function to call, the worker from its fifth byte on,
  -- the instructions that stood after the patched one, and a jump to the first instruction that was
  -- left in place.
  pub patch_io_instruction-IsPatched :
      (inst_buf : List ℕ) (io_size instruction_size address : ℕ) (out : Bool) (s : Host W)
      → 4 ≤ length workers.out_byte_fn
      → 4 ≤ length workers.in_byte_fn
      → address + length inst_buf < 2 ^ 32
      → ((i : ℕ) → i < length inst_buf → mapped s.world (address + i) ≡ true)
      → (patch_io_instruction debuggee workers length_disasm inst_buf io_size instruction_size
          address out s).0
        ≡ true
      → (len_total : ℕ) × (r : ℕ) × (io_size ≡ 8)
        × (instruction_size ≡ 1)
        × (covered length_disasm 7 inst_buf io_size 0 ≡ some len_total)
        × (6 ≤ len_total)
        × (len_total ≤ length inst_buf)
        × IsPatched memory address inst_buf
            (if out then workers.out_byte_fn else workers.in_byte_fn)
            (if out then workers.write_port8 else workers.read_port8)
            len_total
            r
            (patch_io_instruction debuggee workers length_disasm inst_buf io_size instruction_size
              address out s).1
  patch_io_instruction-IsPatched inst_buf io_size instruction_size address out s big_out big_in
        space there e =
      let (len_total, count, eight, one, q) =
        patch-place_worker inst_buf io_size instruction_size address out s e in
      let e1 = ap (λ (x : Bool × Host W). x.0) (sym q) ∙ e in
      let (r, got, q2) = place_worker-place inst_buf address out len_total s e1 in
      let worker = if out then workers.out_byte_fn else workers.in_byte_fn in
      let io_fn = if out then workers.write_port8 else workers.read_port8 in
      let n = len_total - 1 + 6 + length worker in
      let s' : Host W = record s { world = (debuggee.virtual_alloc_ex n s.world).1 } in
      let e2 = ap (λ (x : Bool × Host W). x.0) (sym q2) ∙ e1 in
      let least = (covered-enough length_disasm 0 inst_buf io_size len_total).1 count in
      let fits =
        place-fits debuggee memory mapped laws workers length_disasm inst_buf address worker io_fn
          len_total r s' e2 in
      let apart =
        fresh-apart n len_total r address s.world got (omega arith) (omega (arith, least))
          (λ i h. there i (omega (arith, fits))) in
      let big : 4 ≤ length worker = ground arith in
      let (_, patched) =
        place-IsPatched debuggee memory mapped laws workers length_disasm inst_buf address worker
          io_fn len_total r s' big least (laws.within n r s.world got) (omega (arith, fits)) apart
          e2 in
      let final = ap (λ (x : Bool × Host W). x.1) (q ∙ q2) in
      (
        len_total,
        r,
        eight,
        one,
        count,
        least,
        fits,
        subst (IsPatched memory address inst_buf worker io_fn len_total r) (sym final) patched,
      )
