-- ===== src/Injector/Memory.antt =====
-- The memory of the program that LptToUsbAdapter/LptPatchInjector/LptPatchInjector.c patches.
use lpt_to_usb_adapter.Base.{
  bytes_at, ℕ, zero, suc, ◌+◌, ◌<◌, ◌≤◌, ◌^◌, ◌≡◌, refl, ap, ◌⊎◌, Bool, true, false, Option, none,
  some, ◌==◌, List, length, arith, ==_iff,
}
use lpt_to_usb_adapter.Usb.Api.{M, Host, and_then}
use lpt_to_usb_adapter.Injector.Debuggee.{Debuggee}
use lpt_to_usb_adapter.Injector.Patch.{write_memory}

-- Writing changes the bytes it is given, and no others; a block that is allocated lies in the
-- 32-bit address space, and where nothing was mapped.
pub record IsMemory {W : Type 0} (debuggee : Debuggee W) (memory : W → ℕ → ℕ)
    (mapped : W → ℕ → Bool) : Type 0 where
  pub written :
      (a : ℕ) (bytes : List ℕ) (w : W)
      → (debuggee.write_process_memory a bytes w).0 ≡ some (length bytes)
      → bytes_at (memory (debuggee.write_process_memory a bytes w).1) a (length bytes) ≡ bytes
  pub kept :
      (a : ℕ) (bytes : List ℕ) (w : W) (b : ℕ)
      → (b < a) ⊎ (a + length bytes ≤ b)
      → memory (debuggee.write_process_memory a bytes w).1 b ≡ memory w b
  pub within : (n r : ℕ) (w : W) → (debuggee.virtual_alloc_ex n w).0 ≡ some r → r + n ≤ 2 ^ 32
  pub fresh :
      (n r : ℕ) (w : W) (i : ℕ)
      → (debuggee.virtual_alloc_ex n w).0 ≡ some r
      → i < n
      → mapped w (r + i) ≡ false

pub and_then-true :
    {W : Type 0} (m k : M W Bool) (s : Host W)
    → (and_then m k s).0 ≡ true
    → ((m s).0 ≡ true) × ((k (m s).1).0 ≡ true) × ((and_then m k s).1 ≡ (k (m s).1).1)
and_then-true m k s e = ground (arith, e)

module _ {W : Type 0} (debuggee : Debuggee W) (memory : W → ℕ → ℕ) (mapped : W → ℕ → Bool)
    (laws : IsMemory debuggee memory mapped) where
  -- The bytes in the memory of a state.
  abbrev pub bytes_of : Host W → ℕ → ℕ → List ℕ
  bytes_of s = bytes_at (memory s.world)

  wrote : (o : Option ℕ) (n : ℕ) → elim o [ none ↦ false | some k ↦ k == n ] ≡ true → o ≡ some n
  wrote none n e = ground (arith, e)
  wrote (some k) n e = ap some ((==_iff k n).0 e)

  pub write_memory-written :
      (a : ℕ) (bytes : List ℕ) (s : Host W)
      → (write_memory debuggee a bytes s).0 ≡ true
      → bytes_of (write_memory debuggee a bytes s).1 a (length bytes) ≡ bytes
  write_memory-written a bytes s e =
      let o = (debuggee.write_process_memory a bytes s.world).0 in
      laws.written a bytes s.world (wrote o (length bytes) e)

  pub write_memory-kept :
      (a : ℕ) (bytes : List ℕ) (s : Host W) (b n : ℕ)
      → (b + n ≤ a) ⊎ (a + length bytes ≤ b)
      → bytes_of (write_memory debuggee a bytes s).1 b n ≡ bytes_of s b n
  unfolding bytes_at
  write_memory-kept a bytes s b zero out = refl
  write_memory-kept a bytes s b (suc n) out =
      let first = laws.kept a bytes s.world b (ground (arith, out)) in
      let rest = write_memory-kept a bytes s (suc b) n (ground (arith, out)) in
      rw (first, rest) refl
