-- ===== src/Injector/Covering.antt =====
-- The loop of `PatchIoInstruction` in LptToUsbAdapter/LptPatchInjector/LptPatchInjector.c that
-- counts whole instructions.
use lpt_to_usb_adapter.Base.{
  ℕ, zero, suc, ◌+◌, ◌-◌, ◌<◌, ◌≤◌, ◌≡◌, refl, some, List, drop, arith, ltb, Bool-cases, inl, inr,
}
use lpt_to_usb_adapter.Injector.Patch.{covered}

module _ (length_disasm : List ℕ → ℕ → ℕ) where
  covered-add :
      (fuel k : ℕ) (inst_buf : List ℕ) (limit total : ℕ)
      → 0 < fuel
      → 7 ≤ fuel + total
      → covered length_disasm (fuel + k) inst_buf limit total
        ≡ covered length_disasm fuel inst_buf limit total
  unfolding covered
  covered-add zero k inst_buf limit total pos enough = absurd (omega arith)
  covered-add (suc fuel) k inst_buf limit total pos enough =
      let this = length_disasm (drop total inst_buf) (limit - total) in
      let e : suc fuel + k ≡ suc (fuel + k) = omega arith in
      rw e (elim (Bool-cases (ltb total 6)) [
        | inr done ↦ rw done refl
        | inl more ↦ elim (Bool-cases (ltb this 1)) [
          | inl stop ↦ rw (more, stop) refl
          | inr step ↦
              rw (more, step)
                (covered-add fuel k inst_buf limit (total + this) (ground arith) (ground arith))
        ]
      ])

  covered-least :
      (fuel : ℕ) (inst_buf : List ℕ) (limit start total : ℕ)
      → covered length_disasm fuel inst_buf limit start ≡ some total
      → 6 ≤ total
  unfolding covered
  covered-least zero inst_buf limit start total e = ground (arith, e)
  covered-least (suc fuel) inst_buf limit start total e =
      let this = length_disasm (drop start inst_buf) (limit - start) in
      ground (arith, e, covered-least fuel inst_buf limit (start + this) total)

  -- Whatever the disassembler returns, the loop comes to an end within seven rounds: more fuel
  -- gives the same result; and a result counts at least the six bytes of the jump.
  pub covered-enough :
      (k : ℕ) (inst_buf : List ℕ) (limit total : ℕ)
      → (covered length_disasm (7 + k) inst_buf limit 0 ≡ covered length_disasm 7 inst_buf limit 0)
        × (covered length_disasm 7 inst_buf limit 0 ≡ some total → 6 ≤ total)
  covered-enough k inst_buf limit total = (
    covered-add 7 k inst_buf limit 0 (omega arith) (omega arith),
    covered-least 7 inst_buf limit 0 total,
  )
