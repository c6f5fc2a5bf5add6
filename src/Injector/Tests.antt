-- ===== src/Injector/Tests.antt =====
-- Concrete exceptions that LptToUsbAdapter/LptPatchInjector/LptPatchInjector.c serves.
use lpt_to_usb_adapter.Base.{
  ℕ, ◌+◌, ◌≡◌, ◌≢◌, refl, true, false, some, none, List, [], ◌∷◌, take, replicate, length, inl, inr,
  arith, u8,
}
use lpt_to_usb_adapter.Lpt.Pins.{pcon}
use lpt_to_usb_adapter.Lpt.Driver
use lpt_to_usb_adapter.Lpt.Tests.{responder}
use lpt_to_usb_adapter.Device.{Device, function_setup, main}
use lpt_to_usb_adapter.Device.Tests.{build}
use lpt_to_usb_adapter.Usb.Api.{Api, Host}
use lpt_to_usb_adapter.UsbLpt.Commands.{UsbLpt}
use lpt_to_usb_adapter.Link.{IsLinked}
use lpt_to_usb_adapter.Injector.Decode.{decode_io_instruction}
use lpt_to_usb_adapter.Injector.Encoding.{
  byte, word, dx, Access, byte_access, decode_io_instruction-encode,
}
use lpt_to_usb_adapter.Injector.Debuggee.{Debuggee, Context, Settings, Workers}
use lpt_to_usb_adapter.Injector.Exception.{process_io_exception}
use lpt_to_usb_adapter.Injector.Emulation.{IsStopped, Stands, process_io_exception-unpatched}
use lpt_to_usb_adapter.Injector.Serving.{process_io_exception-out, process_io_exception-in}
use lpt_to_usb_adapter.Injectee.Ports.{returned, write_port8, read_port8}
use lpt_to_usb_adapter.Injectee.Modes.{
  process_io_exception-write_port8, process_io_exception-read_port8,
}

-- The adapter, and a program that is stopped at one instruction.
record World : Type 0 where
  adapter : Device
  registers : Context
  memory : List ℕ

abbrev cable : Api World
cable = record {
  malloc = λ n w. (true, w);
  heap_flag = λ w. false;
  stack_byte = λ w. 0xcc;
  create_file = λ path w. (some 7, w);
  winusb_initialize = λ h w. (some 8, w);
  winusb_free = λ h w. w;
  close_handle = λ h w. w;
  control_out =
      λ h rq bytes w. (some 0, record w { adapter = (function_setup responder rq w.adapter).1 });
  control_in = λ h rq n w. (
    some (take rq.length (function_setup responder rq w.adapter).0),
    record w { adapter = (function_setup responder rq w.adapter).1 },
  );
  write_pipe = λ h pipe bytes w. (none, w);
  read_pipe = λ h pipe n w. (none, w);
}

abbrev stopped : Debuggee World
stopped = record {
  read_process_memory = λ a n w. (some w.memory, w);
  write_process_memory = λ a bytes w. (some (length bytes), w);
  virtual_alloc_ex = λ n w. (some 0x10000, w);
  get_thread_context = λ w. (some w.registers, w);
  set_thread_context = λ c w. (true, record w { registers = c });
}

abbrev device : World → Device
device w = w.adapter

abbrev context : World → Context
context w = w.registers

abbrev code : World → ℕ → List ℕ
code w a = w.memory

stopped-IsStopped : IsStopped stopped code context device
stopped-IsStopped = record {
  reads = λ a w. refl;
  got = λ w. refl;
  set_ok = λ c w. refl;
  set_context = λ c w. refl;
  set_device = λ c w. refl;
}

cable-IsLinked : IsLinked cable responder device
cable-IsLinked = record {
  out_sent = λ h rq w. refl;
  out_served = λ h rq w. refl;
  in_arrived = λ h rq n w. refl;
  in_served = λ h rq n w. refl;
  no_pipe = λ h pipe bytes w. refl;
}

abbrev registers : Context
registers = record { eax = 0x1234561f; edx = 0x037a; eip = 0x401000 }

abbrev at : List ℕ → Host World
at bytes = record {
  world = record { adapter = main build; registers = registers; memory = bytes };
  allocated = 0;
  freed = 0;
  opened = 0;
  closed = 0;
  initialized = 0;
  released = 0;
}

abbrev workers : Workers
workers = record { out_byte_fn = []; in_byte_fn = []; write_port8 = 0; read_port8 = 0 }

abbrev one_byte : List ℕ → ℕ → ℕ
one_byte bytes limit = 1

abbrev settings : Settings
settings = record { use_mempatch = false; bypass_ports = 0x77a ∷ []; base_address = 0x378 }

abbrev lpt : UsbLpt
lpt = record {
  usb_handles = record { dev_handle = 7; dev_winusb_handle = 8 };
  version = replicate 40 0;
  no_special_endpoint = true;
}

-- OUT DX, AL and IN AL, DX among NOPs.
abbrev out_dx : List ℕ
out_dx = 0xee ∷ replicate 15 0x90

abbrev in_dx : List ℕ
in_dx = 0xec ∷ replicate 15 0x90

-- IN AX, DX and OUT 0x80, AL
abbrev in_word : List ℕ
in_word = 0x66 ∷ 0xed ∷ replicate 14 0x90

abbrev out_80 : List ℕ
out_80 = 0xe6 ∷ 0x80 ∷ replicate 14 0x90

abbrev in_word_access : Access
in_word_access = record { width = word; operand = dx; out = false }

out_dx-Stands : Stands out_dx (byte_access dx true)
out_dx-Stands = record { behind = replicate 15 0x90; encoded = refl; sixteen = refl }

in_dx-Stands : Stands in_dx (byte_access dx false)
in_dx-Stands = record { behind = replicate 15 0x90; encoded = refl; sixteen = refl }

in_word-Stands : Stands in_word in_word_access
in_word-Stands = record { behind = replicate 14 0x90; encoded = refl; sixteen = refl }

-- The width of a wider access.
word-not_byte : word ≢ byte
word-not_byte e = cc

decode_io_instruction-encode_example :
    decode_io_instruction in_word 0x1037a
    ≡ some (record { port = 0x037a; io_size = 16; out_direction = false; instruction_size = 2 })
decode_io_instruction-encode_example =
    decode_io_instruction-encode in_word_access 0x1037a (replicate 14 0x90)

process_io_exception-out_example :
    let (done, s') =
      process_io_exception cable stopped workers one_byte settings lpt 0 (at out_dx) in
    (done ≡ true)
    × (s'.world.adapter
        ≡ record (main build) { mcu = (Driver.set_reg responder pcon 0x1f (main build).mcu).1 })
    × (s'.world.registers ≡ record registers { eip = 0x401001 })
process_io_exception-out_example =
    process_io_exception-out cable stopped workers one_byte code context device stopped-IsStopped
      responder cable-IsLinked settings lpt 0 (at out_dx) dx refl refl out_dx-Stands refl
      (omega arith) (omega arith)

process_io_exception-in_example :
    let (got, mcu') = Driver.get_reg responder pcon (main build).mcu in
    let (done, s') =
      process_io_exception cable stopped workers one_byte settings lpt 0 (at in_dx) in
    (done ≡ true)
    × (s'.world.adapter ≡ record (main build) { mcu = mcu'; io_byte = got })
    × (s'.world.registers ≡ record registers { eip = 0x401001; eax = 0x12345600 + u8 got })
process_io_exception-in_example =
    process_io_exception-in cable stopped workers one_byte code context device stopped-IsStopped
      responder cable-IsLinked settings lpt 0 (at in_dx) dx refl refl in_dx-Stands refl
      (omega arith) (omega arith)

process_io_exception-unpatched_example :
    let patching = record settings { use_mempatch = true } in
    process_io_exception cable stopped workers one_byte patching lpt 0 (at in_word)
    ≡ (true, at in_word)
process_io_exception-unpatched_example =
    process_io_exception-unpatched cable stopped workers one_byte code context device
      stopped-IsStopped (record settings { use_mempatch = true }) lpt 0 (at in_word) in_word_access
      refl in_word-Stands (inl word-not_byte)

process_io_exception-write_port8_example :
    let (done, s₁) =
      process_io_exception cable stopped workers one_byte settings lpt 0 (at out_dx) in
    let (r, s₂) = write_port8 cable (0x77a ∷ []) lpt 0x37a 0x1f (at out_dx) in
    (done ≡ true) × (r ≡ returned tt) × (s₁.world.adapter ≡ s₂.world.adapter)
process_io_exception-write_port8_example =
    process_io_exception-write_port8 cable stopped workers one_byte code context device
      stopped-IsStopped responder cable-IsLinked settings lpt 0 (at out_dx) dx refl refl refl
      out_dx-Stands (inr (refl, omega arith, omega arith))

process_io_exception-read_port8_example :
    let (done, s₁) =
      process_io_exception cable stopped workers one_byte settings lpt 0 (at in_dx) in
    let (r, s₂) = read_port8 cable (0x77a ∷ []) lpt 0x37a (at in_dx) in
    (value : ℕ) × (r ≡ returned value)
    × (done ≡ true)
    × (s₁.world.registers.eax ≡ 0x12345600 + u8 value)
    × (s₁.world.adapter ≡ s₂.world.adapter)
process_io_exception-read_port8_example =
    process_io_exception-read_port8 cable stopped workers one_byte code context device
      stopped-IsStopped responder cable-IsLinked settings lpt 0 (at in_dx) dx refl refl refl
      in_dx-Stands (inr (refl, omega arith, omega arith))
