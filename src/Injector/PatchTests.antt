-- ===== src/Injector/PatchTests.antt =====
-- A concrete memory that LptToUsbAdapter/LptPatchInjector/LptPatchInjector.c patches.
use lpt_to_usb_adapter.Base.{
  ℕ, ◌≤◌, ◌≡◌, refl, inl, inr, Bool, true, false, none, some, List, [], ◌∷◌, length, ltb, leb,
  if◌then◌else◌, arith,
}
use lpt_to_usb_adapter.Base.Storing.{stored_at, stored_at-below, stored_at-beyond, stored_at-stored}
use lpt_to_usb_adapter.Usb.Api.{Host}
use lpt_to_usb_adapter.Injector.Debuggee.{Debuggee, Workers}
use lpt_to_usb_adapter.Injector.Patch.{covered, patch_io_instruction}
use lpt_to_usb_adapter.Injector.Memory.{IsMemory}
use lpt_to_usb_adapter.Injector.Placing.{IsPatched}
use lpt_to_usb_adapter.Injector.Patching.{patch_io_instruction-IsPatched}

abbrev Memory : Type 0
Memory = ℕ → ℕ

abbrev program : Debuggee Memory
program = record {
  read_process_memory = λ a n w. (none, w);
  write_process_memory = λ a bytes w. (some (length bytes), stored_at a bytes w);
  virtual_alloc_ex = λ n w. (if leb n 4096 then some 0x10000000 else none, w);
  get_thread_context = λ w. (none, w);
  set_thread_context = λ c w. (false, w);
}

abbrev mapped : Memory → ℕ → Bool
mapped m a = ltb a 0x1000000

program-IsMemory : IsMemory program (λ w. w) mapped
program-IsMemory = record {
  written = λ a bytes w e. stored_at-stored a bytes w;
  kept = λ a bytes w b out. elim out [
    | inl below ↦ stored_at-below a bytes w b below
    | inr beyond ↦ stored_at-beyond a bytes w b beyond
  ];
  within = λ n r w e. ground (arith, e);
  fresh = λ n r w i e h. ground (arith, e, h);
}

abbrev workers : Workers
workers = record {
  out_byte_fn = 0 ∷ 0 ∷ 0 ∷ 0 ∷ 0x60 ∷ 0x61 ∷ [];
  in_byte_fn = 0 ∷ 0 ∷ 0 ∷ 0 ∷ 0x61 ∷ [];
  write_port8 = 0x10001000;
  read_port8 = 0x10001100;
}

-- `out dx, al`, then instructions of one byte.
abbrev code : List ℕ
code = 0xee ∷ 1 ∷ 2 ∷ 3 ∷ 4 ∷ 5 ∷ 6 ∷ 7 ∷ []

abbrev start : Host Memory
start = record {
  world = stored_at 0x401000 code (λ a. 0);
  allocated = 0;
  freed = 0;
  opened = 0;
  closed = 0;
  initialized = 0;
  released = 0;
}

abbrev one_byte : List ℕ → ℕ → ℕ
one_byte bytes limit = 1

patch_io_instruction-IsPatched_example :
    (len_total : ℕ) × (r : ℕ) × (◌≡◌ {A = ℕ} 8 8)
    × (◌≡◌ {A = ℕ} 1 1)
    × (covered one_byte 7 code 8 0 ≡ some len_total)
    × (6 ≤ len_total)
    × (len_total ≤ 8)
    × IsPatched
        (λ (w : Memory). w)
        0x401000
        code
        workers.out_byte_fn
        workers.write_port8
        len_total
        r
        (patch_io_instruction program workers one_byte code 8 1 0x401000 true start).1
unfolding patch_io_instruction covered
patch_io_instruction-IsPatched_example =
    patch_io_instruction-IsPatched program (λ w. w) mapped program-IsMemory workers one_byte code 8
      1 0x401000 true start (omega arith) (omega arith) (omega arith) (λ i h. ground (arith, h))
      refl
