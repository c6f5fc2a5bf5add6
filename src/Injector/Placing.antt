-- ===== src/Injector/Placing.antt =====
-- What the writes of `PatchIoInstruction` in LptToUsbAdapter/LptPatchInjector/LptPatchInjector.c
-- leave in the memory of the program.
use mathlib.Core.Path.{subst}
use lpt_to_usb_adapter.Base.{
  bytes_at, ℕ, ◌+◌, ◌-◌, ◌<◌, ◌≤◌, ◌^◌, not, ltb, ◌≡◌, refl, sym, ap, ◌∙◌, ◌⊎◌, Bool, true, not,
  ltb, List, ◌++◌, length, take, drop, replicate, le32, u32, length-take, length-drop,
  length-replicate, arith,
}
use lpt_to_usb_adapter.Usb.Api.{M, Host, pure, and_then}
use lpt_to_usb_adapter.Injector.Debuggee.{Debuggee, Workers}
use lpt_to_usb_adapter.Injector.Patch.{jmp_far, write_memory, place}
use lpt_to_usb_adapter.Injector.Memory.{IsMemory, and_then-true}
use lpt_to_usb_adapter.Injector.Layout.{s1, s2, s3, s5, AllWritten, Apart, patch_part, block}

-- What is in the memory after a successful patch.
pub record IsPatched {W : Type 0} (memory : W → ℕ → ℕ) (address : ℕ) (inst_buf worker : List ℕ)
    (io_fn len_total r : ℕ) (s : Host W) : Type 0 where
  pub at_instruction :
      bytes_at (memory s.world) address len_total
      ≡ jmp_far (r + 4) ++ replicate (len_total - 6) 0x90
  pub at_block :
      bytes_at (memory s.world) r (length worker + (len_total - 1) + 6)
      ≡ le32 io_fn
        ++ drop 4 worker
        ++ take (len_total - 1) (drop 1 inst_buf)
        ++ jmp_far (address + len_total)

module _ {W : Type 0} (debuggee : Debuggee W) (memory : W → ℕ → ℕ) (mapped : W → ℕ → Bool)
    (laws : IsMemory debuggee memory mapped) (workers : Workers)
    (length_disasm : List ℕ → ℕ → ℕ) where
  -- The writes of `place`, by their places.
  abbrev writes : ℕ → ℕ → ℕ → ℕ → List ℕ → List ℕ → List ℕ → Bool → List ℕ → List ℕ → M W Bool
  writes r at_moved address at_back worker io moved enough patch back =
      and_then (write_memory debuggee r worker) (
        and_then (write_memory debuggee r io) (
          and_then (write_memory debuggee at_moved moved) (
            and_then (pure enough) (
              and_then (write_memory debuggee address patch)
                (write_memory debuggee at_back back)))))

  writes-AllWritten :
      (r address : ℕ) (worker io moved patch back : List ℕ) (enough : Bool) (s : Host W)
      → (writes r
          (r + length worker)
          address
          (r + length moved + length worker)
          worker
          io
          moved
          enough
          patch
          back
          s).0
        ≡ true
      → AllWritten debuggee memory mapped laws r address worker io moved patch back s
        × (enough ≡ true)
        × ((writes r
              (r + length worker)
              address
              (r + length moved + length worker)
              worker
              io
              moved
              enough
              patch
              back
              s).1
            ≡ s5 debuggee memory mapped laws r address worker io moved patch back s)
  writes-AllWritten r address worker io moved patch back enough s e =
      let d = debuggee in
      let last = write_memory d (r + length moved + length worker) back in
      let k4 = and_then (write_memory d address patch) last in
      let k3 = and_then (pure enough) k4 in
      let k2 = and_then (write_memory d (r + length worker) moved) k3 in
      let k1 = and_then (write_memory d r io) k2 in
      let (w1, e1, q1) = and_then-true (write_memory d r worker) k1 s e in
      let (w2, e2, q2) =
        and_then-true (write_memory d r io) k2
          (s1 debuggee memory mapped laws r address worker io moved patch back s) e1 in
      let (w3, e3, q3) =
        and_then-true (write_memory d (r + length worker) moved) k3
          (s2 debuggee memory mapped laws r address worker io moved patch back s) e2 in
      let (w4, e4, q4) =
        and_then-true (pure enough) k4
          (s3 debuggee memory mapped laws r address worker io moved patch back s) e3 in
      let (w5, e5, q5) =
        and_then-true (write_memory d address patch) last
          (s3 debuggee memory mapped laws r address worker io moved patch back s) e4 in
      (
        record {
          worker_written = w1;
          io_written = w2;
          moved_written = w3;
          patch_written = w5;
          back_written = e5;
        },
        w4,
        q1 ∙ q2 ∙ q3 ∙ q4 ∙ q5,
      )

  writes-at_back :
      (r address at_back : ℕ) (worker io moved patch back : List ℕ) (enough : Bool) (s : Host W)
      → at_back ≡ r + length moved + length worker
      → (writes r (r + length worker) address at_back worker io moved enough patch back s).0 ≡ true
      → AllWritten debuggee memory mapped laws r address worker io moved patch back s
        × ((writes r (r + length worker) address at_back worker io moved enough patch back s).1
            ≡ s5 debuggee memory mapped laws r address worker io moved patch back s)
  writes-at_back r address at_back worker io moved patch back enough s q e =
      let m : ℕ → M W Bool =
        λ a. writes r (r + length worker) address a worker io moved enough patch back in
      let done = ap (λ (a : ℕ). (m a s).0) (sym q) ∙ e in
      let (all, _, final) = writes-AllWritten r address worker io moved patch back enough s done in
      (all, ap (λ (a : ℕ). (m a s).1) q ∙ final)

  writes-enough :
      (r at_moved address at_back : ℕ) (worker io moved patch back : List ℕ) (enough : Bool)
      (s : Host W)
      → (writes r at_moved address at_back worker io moved enough patch back s).0 ≡ true
      → enough ≡ true
  writes-enough r at_moved address at_back worker io moved patch back enough s e = ground (arith, e)

  place-writes :
      (inst_buf : List ℕ) (address : ℕ) (worker : List ℕ) (io_fn len_total r : ℕ)
      → 4 ≤ length worker
      → r + (len_total - 1 + 6 + length worker) ≤ 2 ^ 32
      → address + len_total < 2 ^ 32
      → place debuggee workers length_disasm inst_buf 1 address worker io_fn len_total r
        ≡ writes r
            (r + length worker)
            address
            (r + (len_total - 1) + length worker)
            worker
            (le32 io_fn)
            (take (len_total - 1) (drop 1 inst_buf))
            (not (ltb (length inst_buf) len_total))
            (jmp_far (r + 4) ++ replicate (len_total - 6) 0x90)
            (jmp_far (address + len_total))
  place-writes inst_buf address worker io_fn len_total r big within space =
      let e1 : u32 (r + 4) ≡ r + 4 = omega arith in
      let e2 : u32 (r + length worker) ≡ r + length worker = omega arith in
      let e3 : u32 (r + (len_total - 1) + length worker) ≡ r + (len_total - 1) + length worker =
        omega arith in
      let e4 : u32 (address + len_total) ≡ address + len_total = omega arith in
      rw (e1, e2, e3, e4) refl

  pub place-fits :
      (inst_buf : List ℕ) (address : ℕ) (worker : List ℕ) (io_fn len_total r : ℕ) (s : Host W)
      → (place debuggee workers length_disasm inst_buf 1 address worker io_fn len_total r s).0
        ≡ true
      → len_total ≤ length inst_buf
  place-fits inst_buf address worker io_fn len_total r s e = ground (arith, e)

  length-moved :
      (inst_buf : List ℕ) (len_total : ℕ)
      → len_total ≤ length inst_buf
      → length (take (len_total - 1) (drop 1 inst_buf)) ≡ len_total - 1
  length-moved inst_buf len_total fits =
      omega (arith, length-take (len_total - 1) (drop 1 inst_buf), length-drop 1 inst_buf)

  length-patch :
      (a len_total : ℕ)
      → 6 ≤ len_total
      → length (jmp_far a ++ replicate (len_total - 6) 0x90) ≡ len_total
  length-patch a len_total least = omega (arith, length-replicate {A = ℕ} (len_total - 6) 0x90)

  pub place-IsPatched :
      (inst_buf : List ℕ) (address : ℕ) (worker : List ℕ) (io_fn len_total r : ℕ) (s : Host W)
      → 4 ≤ length worker
      → 6 ≤ len_total
      → r + (len_total - 1 + 6 + length worker) ≤ 2 ^ 32
      → address + len_total < 2 ^ 32
      → (address + len_total ≤ r) ⊎ (r + (len_total - 1 + 6 + length worker) ≤ address)
      → (place debuggee workers length_disasm inst_buf 1 address worker io_fn len_total r s).0
        ≡ true
      → (len_total ≤ length inst_buf)
        × IsPatched memory address inst_buf worker io_fn len_total r
            (place debuggee workers length_disasm inst_buf 1 address worker io_fn len_total r s).1
  place-IsPatched inst_buf address worker io_fn len_total r s big least within space apart e =
      let moved = take (len_total - 1) (drop 1 inst_buf) in
      let enough = not (ltb (length inst_buf) len_total) in
      let patch = jmp_far (r + 4) ++ replicate (len_total - 6) 0x90 in
      let back = jmp_far (address + len_total) in
      let plain = place-writes inst_buf address worker io_fn len_total r big within space in
      let done = ap (λ (m : M W Bool). (m s).0) (sym plain) ∙ e in
      let got =
        writes-enough r (r + length worker) address (r + (len_total - 1) + length worker) worker
          (le32 io_fn) moved patch back enough s done in
      let fits : len_total ≤ length inst_buf = ground (arith, got) in
      let m = length-moved inst_buf len_total fits in
      let p = length-patch (r + 4) len_total least in
      let at : r + (len_total - 1) + length worker ≡ r + length moved + length worker =
        omega (arith, m) in
      let (all, final) =
        writes-at_back r address (r + (len_total - 1) + length worker) worker (le32 io_fn) moved
          patch back enough s at done in
      let final' = ap (λ (k : M W Bool). (k s).1) plain ∙ final in
      let s' = s5 debuggee memory mapped laws r address worker (le32 io_fn) moved patch back s in
      let apart' : Apart debuggee memory mapped laws r address worker (le32 io_fn) moved patch back
          s =
        ground (arith, apart, m, p) in
      let patched =
        patch_part debuggee memory mapped laws r address worker (le32 io_fn) moved patch back s all
          apart' in
      let whole =
        block debuggee memory mapped laws r address worker (le32 io_fn) moved patch back s all
          apart' big in
      let bytes = bytes_at (memory s'.world) in
      (
        fits,
        subst (IsPatched memory address inst_buf worker io_fn len_total r) (sym final') (record {
          at_instruction = ap (bytes address) (sym p) ∙ patched;
          at_block = ap (λ (k : ℕ). bytes r (length worker + k + 6)) (sym m) ∙ whole;
        }),
      )
