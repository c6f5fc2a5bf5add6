-- ===== src/Injector/Layout.antt =====
-- What `PatchIoInstruction` of LptToUsbAdapter/LptPatchInjector/LptPatchInjector.c leaves in the
-- memory of the program: the bytes at the instruction, and the block for the worker.
use lpt_to_usb_adapter.Base.{
  bytes_at, bytes_at-append, ℕ, zero, suc, ◌+◌, ◌-◌, ◌≤◌, ◌≡◌, refl, sym, ap, ◌∙◌, ◌⊎◌, inl, inr,
  Bool, true, List, ◌++◌, length, drop, arith,
}
use lpt_to_usb_adapter.Usb.Api.{Host}
use lpt_to_usb_adapter.Injector.Debuggee.{Debuggee}
use lpt_to_usb_adapter.Injector.Patch.{write_memory}
use lpt_to_usb_adapter.Injector.Memory.{IsMemory, write_memory-written, write_memory-kept}

drop-bytes_at :
    (memory : ℕ → ℕ) (a n k : ℕ) → drop n (bytes_at memory a (n + k)) ≡ bytes_at memory (a + n) k
unfolding bytes_at
drop-bytes_at memory a zero k =
    let e : 0 + k ≡ k = omega arith in let e' : a + 0 ≡ a = omega arith in rw (e, e') refl
drop-bytes_at memory a (suc n) k =
    let e : suc n + k ≡ suc (n + k) = omega arith in
    let e' : a + suc n ≡ suc a + n = omega arith in rw (e, e') (drop-bytes_at memory (suc a) n k)

module _ {W : Type 0} (debuggee : Debuggee W) (memory : W → ℕ → ℕ) (mapped : W → ℕ → Bool)
    (laws : IsMemory debuggee memory mapped) where
  -- A part of the block that a write leaves alone.
  abbrev pub write : ℕ → List ℕ → Host W → Host W
  write a bytes s = (write_memory debuggee a bytes s).1

  -- The five writes one after the other.
  module _ (r address : ℕ) (worker io moved patch back : List ℕ) (s : Host W) where
    abbrev pub s1 : Host W
    s1 = write r worker s

    abbrev pub s2 : Host W
    s2 = write r io s1

    abbrev pub s3 : Host W
    s3 = write (r + length worker) moved s2

    abbrev pub s4 : Host W
    s4 = write address patch s3

    abbrev pub s5 : Host W
    s5 = write (r + length moved + length worker) back s4

    pub record AllWritten : Type 0 where
      pub worker_written : (write_memory debuggee r worker s).0 ≡ true
      pub io_written : (write_memory debuggee r io s1).0 ≡ true
      pub moved_written : (write_memory debuggee (r + length worker) moved s2).0 ≡ true
      pub patch_written : (write_memory debuggee address patch s3).0 ≡ true
      pub back_written : (write_memory debuggee (r + length moved + length worker) back s4).0 ≡ true

    abbrev pub Apart : Type 0
    Apart =
        (address + length patch ≤ r) ⊎ (r + length worker + length moved + length back ≤ address)

    kept :
        (a n : ℕ) (bytes : List ℕ) (b : ℕ) (t : Host W)
        → (b + n ≤ a) ⊎ (a + length bytes ≤ b)
        → bytes_at (memory (write a bytes t).world) b n ≡ bytes_at (memory t.world) b n
    kept a n bytes b t out = write_memory-kept debuggee memory mapped laws a bytes t b n out

    -- The last two writes leave a part of the block alone that ends before the jump back.
    end_kept :
        Apart
        → (b n : ℕ) → r ≤ b
        → b + n ≤ r + length worker + length moved
        → bytes_at (memory s5.world) b n ≡ bytes_at (memory s3.world) b n
    end_kept apart b n low high =
        kept (r + length moved + length worker) n back b s4 (inl (omega arith))
        ∙ kept address n patch b s3 (ground (arith, apart))

    io_part :
        AllWritten
        → Apart
        → length io ≤ length worker
        → bytes_at (memory s5.world) r (length io) ≡ io
    io_part all apart fits =
        end_kept apart r (length io) (omega arith) (omega arith)
        ∙ kept (r + length worker) (length io) moved r s2 (inl (omega arith))
        ∙ write_memory-written debuggee memory mapped laws r io s1 all.io_written

    worker_part :
        (n : ℕ)
        → AllWritten
        → Apart
        → length worker ≡ length io + n
        → bytes_at (memory s5.world) (r + length io) n ≡ drop (length io) worker
    worker_part n all apart rest =
        end_kept apart (r + length io) n (omega arith) (omega arith)
        ∙ kept (r + length worker) n moved (r + length io) s2 (inl (omega arith))
        ∙ kept r n io (r + length io) s1 (inr (omega arith))
        ∙ sym (drop-bytes_at (memory s1.world) r (length io) n)
        ∙ ap (drop (length io)) (
            rw⁻¹ rest
              (write_memory-written debuggee memory mapped laws r worker s all.worker_written))

    moved_part :
        AllWritten → Apart → bytes_at (memory s5.world) (r + length worker) (length moved) ≡ moved
    moved_part all apart =
        end_kept apart (r + length worker) (length moved) (omega arith) (omega arith)
        ∙ write_memory-written debuggee memory mapped laws (r + length worker) moved s2
            all.moved_written

    pub patch_part : AllWritten → Apart → bytes_at (memory s5.world) address (length patch) ≡ patch
    patch_part all apart =
        kept (r + length moved + length worker) (length patch) back address s4
          (ground (arith, apart))
        ∙ write_memory-written debuggee memory mapped laws address patch s3 all.patch_written

    back_part :
        AllWritten
        → bytes_at (memory s5.world) (r + length moved + length worker) (length back) ≡ back
    back_part all =
        write_memory-written debuggee memory mapped laws (r + length moved + length worker) back s4
          all.back_written

    -- The block as a whole: the function's address in place of the worker's first bytes, the rest
    -- of the worker, the instructions that were moved and the jump back.
    pub block :
        AllWritten
        → Apart
        → length io ≤ length worker
        → bytes_at (memory s5.world) r (length worker + length moved + length back)
          ≡ io ++ drop (length io) worker ++ moved ++ back
    block all apart fits =
        let m = memory s5.world in
        let n = length worker - length io in
        let w : length worker ≡ length io + n = omega arith in
        let e : r + (length worker + length moved) ≡ r + length moved + length worker =
          omega arith in
        let whole : bytes_at m r (length worker) ≡ io ++ drop (length io) worker =
          ap (bytes_at m r) w
          ∙ bytes_at-append m r (length io) n
          ∙ rw (io_part all apart fits, worker_part n all apart w) refl in
        bytes_at-append m r (length worker + length moved) (length back)
        ∙ rw
            (
              bytes_at-append m r (length worker) (length moved),
              whole,
              moved_part all apart,
              e,
              back_part all,
            )
            refl
