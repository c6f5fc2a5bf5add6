-- ===== src/UsbLpt/FlashingTests.antt =====
-- A concrete boot loader that refuses every block once, for
-- LptToUsbAdapter/UsbLptLib/UsbLptLib.c.
use lpt_to_usb_adapter.Base.{
  ℕ, ◌+◌, ◌*◌, ◌/◌, ◌<◌, ◌≤◌, ◌^◌, ◌≡◌, refl, sym, ap, ◌∙◌, ◌⊎◌, inl, inr, Bool, true, false,
  Bool-cases, none, some, List, [], ◌∷◌, length, replicate, u8, ◌==◌, if◌then◌else◌, bytes_at,
  arith,
}
use lpt_to_usb_adapter.Base.Storing.{stored_at, stored_at-below, stored_at-beyond, stored_at-stored}
use lpt_to_usb_adapter.Usb.Api.{Api, Host}
use lpt_to_usb_adapter.Usb.Device.{write_pipe_default_interface, read_pipe_default_interface}
use lpt_to_usb_adapter.UsbLpt.Command
use lpt_to_usb_adapter.UsbLpt.Commands.{UsbLpt, bulk_cmd}
use lpt_to_usb_adapter.UsbLpt.Dfu.{
  erase_flash, send_firmware, finalize, retry, send_blocks, load_firmware,
}
use lpt_to_usb_adapter.UsbLpt.Retrying.{IsBootLoader, block_command}
use lpt_to_usb_adapter.UsbLpt.Flashing.{load_firmware-flashed}

-- The flash, whether the next block is refused, and the answer to the last command.
record Loader : Type 0 where
  memory : ℕ → ℕ
  refuses : Bool
  answer : ℕ

abbrev on_block : ℕ → List ℕ → Loader → Loader
on_block a bytes w =
    if w.refuses
    then record w { refuses = false; answer = 1 }
    else record { memory = stored_at a bytes w.memory; refuses = true; answer = 0 }

abbrev obey : List ℕ → Loader → Loader
obey (cmd ∷ a0 ∷ a1 ∷ a2 ∷ a3 ∷ bytes) w =
    if cmd == Command.dfu_ldblock
    then on_block (a0 + 256 * a1 + 65536 * a2 + 16777216 * a3) bytes w
    else record w { answer = 0 }
obey _ w = record w { answer = 0 }

abbrev loader : Api Loader
loader = record {
  malloc = λ n w. (true, w);
  heap_flag = λ w. false;
  stack_byte = λ w. 0xcc;
  create_file = λ path w. (none, w);
  winusb_initialize = λ h w. (none, w);
  winusb_free = λ h w. w;
  close_handle = λ h w. w;
  control_out = λ h rq bytes w. (none, w);
  control_in = λ h rq n w. (none, w);
  write_pipe = λ h pipe bytes w. (some (length bytes), obey bytes w);
  read_pipe = λ h pipe n w. (some (w.answer ∷ []), w);
}

address_of :
    (a : ℕ)
    → a < 2 ^ 32
    → u8 a + 256 * u8 (a / 2 ^ 8) + 65536 * u8 (a / 2 ^ 16) + 16777216 * u8 (a / 2 ^ 24) ≡ a
address_of a small = omega arith

obey-block :
    (a : ℕ) (bytes : List ℕ) (w : Loader)
    → a < 2 ^ 32
    → obey (block_command a bytes) w ≡ on_block a bytes w
obey-block a bytes w small = rw (address_of a small) refl

on_block-kept :
    (a : ℕ) (bytes : List ℕ) (w : Loader) (b : ℕ)
    → (b < a) ⊎ (a + length bytes ≤ b)
    → (on_block a bytes w).memory b ≡ w.memory b
on_block-kept a bytes w b out = elim (Bool-cases w.refuses) [
  | inl refused ↦ rw (on_block, refused) refl
  | inr takes ↦
      rw (on_block, takes)
        (elim out [
          | inl below ↦ stored_at-below a bytes w.memory b below
          | inr beyond ↦ stored_at-beyond a bytes w.memory b beyond
        ])
]

on_block-written :
    (a : ℕ) (bytes : List ℕ) (w : Loader)
    → (on_block a bytes w).answer ≡ 0
    → bytes_at (on_block a bytes w).memory a (length bytes) ≡ bytes
on_block-written a bytes w e = elim (Bool-cases w.refuses) [
  | inl refused ↦ absurd (ground (arith, e, refused))
  | inr takes ↦ rw (on_block, takes) (stored_at-stored a bytes w.memory)
]

finalize-kept :
    (bytes : List ℕ) (w : Loader) → (obey (Command.dfu_finalize ∷ bytes) w).memory ≡ w.memory
finalize-kept [] w = refl
finalize-kept (a ∷ []) w = refl
finalize-kept (a ∷ b ∷ []) w = refl
finalize-kept (a ∷ b ∷ c ∷ []) w = refl
finalize-kept (a ∷ b ∷ c ∷ d ∷ bytes) w = refl

loader-IsBootLoader : IsBootLoader loader (λ (w : Loader). w.memory)
loader-IsBootLoader = record {
  malloc_kept = λ n w b. refl;
  read_kept = λ h n w b. refl;
  block_kept =
      λ h a bytes w b small out. rw (obey-block a bytes w small) (on_block-kept a bytes w b out);
  finalize_kept = λ h bytes w b. rw (finalize-kept bytes w) refl;
  block_written = λ h a bytes w small whole replied.
      let answered : (obey (block_command a bytes) w).answer ≡ 0 = ground (arith, replied) in
      rw (obey-block a bytes w small) (
        on_block-written a bytes w
          (ap (λ (l : Loader). l.answer) (sym (obey-block a bytes w small)) ∙ answered));
}

abbrev device : UsbLpt
device = record {
  usb_handles = record { dev_handle = 7; dev_winusb_handle = 8 };
  version = 2 ∷ replicate 39 0;
  no_special_endpoint = false;
}

abbrev start : Host Loader
start = record {
  world = record { memory = λ a. 255; refuses = true; answer = 0 };
  allocated = 0;
  freed = 0;
  opened = 0;
  closed = 0;
  initialized = 0;
  released = 0;
}

-- Ten bytes in blocks of four.
abbrev image : List ℕ
image = 10 ∷ 11 ∷ 12 ∷ 13 ∷ 14 ∷ 15 ∷ 16 ∷ 17 ∷ 18 ∷ 19 ∷ []

load_firmware-flashed_example :
    bytes_at
      (load_firmware loader 11 device 0x8400 image (replicate 64 0) 4 start).1.world.memory
      0x8400
      10
    ≡ image
unfolding load_firmware erase_flash bulk_cmd write_pipe_default_interface
    read_pipe_default_interface send_blocks retry send_firmware finalize
load_firmware-flashed_example =
    load_firmware-flashed loader (λ (w : Loader). w.memory) loader-IsBootLoader 11 device 0x8400
      image (replicate 64 0) 4 start (omega arith) refl
