-- ===== src/Injector/Debuggee.antt =====
-- What LptToUsbAdapter/LptPatchInjector calls on the program that it debugs, and its settings.
use lpt_to_usb_adapter.Base.{ℕ, Bool, Option, List}

-- The registers of `CONTEXT` that are used.
pub record Context : Type 0 where
  pub eax : ℕ
  pub edx : ℕ
  pub eip : ℕ

-- The calls on a process and a thread, over the host's world. Reading and writing memory give
-- what was read and how much was written.
pub record Debuggee (W : Type 0) : Type 0 where
  pub read_process_memory : ℕ → ℕ → W → Option (List ℕ) × W
  pub write_process_memory : ℕ → List ℕ → W → Option ℕ × W
  pub virtual_alloc_ex : ℕ → W → Option ℕ × W
  pub get_thread_context : W → Option Context × W
  pub set_thread_context : Context → W → Bool × W

-- The fields of `struct LptPatchSettings_t` that steer the injector.
pub record Settings : Type 0 where
  pub use_mempatch : Bool
  pub bypass_ports : List ℕ
  pub base_address : ℕ

-- What the assembler gives: the two workers; and the injectee's functions.
pub record Workers : Type 0 where
  pub out_byte_fn : List ℕ
  pub in_byte_fn : List ℕ
  pub write_port8 : ℕ
  pub read_port8 : ℕ
