-- ===== src/Injector/LogTests.antt =====
-- Concrete calls of `LogLine` and `PrintInstructionDumpAt` of
-- LptToUsbAdapter/LptPatchInjector/CommonCode.c.
use lpt_to_usb_adapter.Base.{
  ℕ, ◌+◌, ◌≡◌, refl, true, false, none, some, List, [], ◌∷◌, ◌++◌, take, arith,
}
use lpt_to_usb_adapter.Usb.Api.{Api, Host}
use lpt_to_usb_adapter.Injector.Debuggee.{Debuggee}
use lpt_to_usb_adapter.Injectee.Ports.{returned}
use lpt_to_usb_adapter.Injector.Log.{
  Log, empty_cache, stamped, log_line, find_used, free_at, set_slot, with_stream, pending,
}
use lpt_to_usb_adapter.Injector.Slots.{Call, slots_of, log_of, position}
use lpt_to_usb_adapter.Injector.Logging.{
  log_lines, files_of, AllOpen, contents, printed, log_lines-printed,
}
use lpt_to_usb_adapter.Injector.Dump.{hex_byte, dump_header, print_instruction_dump_at}
use lpt_to_usb_adapter.Injector.Dumping.{hex_dump, print_instruction_dump_at-cut}

abbrev calls : List Call
calls =
    record { file = b'a' ∷ []; time = b'0' ∷ []; line = b'x' ∷ [] }
    ∷ record { file = b'b' ∷ []; time = b'1' ∷ []; line = b'y' ∷ [] }
    ∷ record { file = b'a' ∷ []; time = b'2' ∷ []; line = b'z' ∷ [] }
    ∷ []

-- What was in the files before.
abbrev before : List (List ℕ × List ℕ)
before = (b'a' ∷ [], b'w' ∷ 10 ∷ []) ∷ []

log_lines-printed_example :
    (log : Log) × (log_lines
        (λ file. true)
        calls
        (record { cache = empty_cache; disk = record { streams = []; chunks = before } })
      ≡ returned log)
    × (contents (b'a' ∷ []) log.disk.chunks
        ≡ contents (b'a' ∷ []) before ++ printed (b'a' ∷ []) calls)
unfolding files_of AllOpen position
log_lines-printed_example =
    log_lines-printed (λ file. true) calls before (b'a' ∷ [])
      (refl, omega arith, (refl, omega arith, (refl, omega arith, tt))) (omega arith)

-- Five files are open, the first of them is `a`, and `b` is not among them.
abbrev open_names : List (List ℕ)
open_names = (b'a' ∷ []) ∷ (b'c' ∷ []) ∷ (b'd' ∷ []) ∷ (b'e' ∷ []) ∷ (b'f' ∷ []) ∷ []

abbrev pointer : List ℕ
pointer = b'0' ∷ b'0' ∷ b'4' ∷ b'0' ∷ b'1' ∷ b'0' ∷ b'0' ∷ b'0' ∷ []

abbrev area : List ℕ
area = 0xec ∷ 0xc3 ∷ 1 ∷ 2 ∷ 3 ∷ 4 ∷ 5 ∷ []

-- A host that gives memory, and a process that can be read.
abbrev host : Api (Unit {0})
host = record {
  malloc = λ n w. (true, w);
  heap_flag = λ w. false;
  stack_byte = λ w. 0;
  create_file = λ path w. (none, w);
  winusb_initialize = λ h w. (none, w);
  winusb_free = λ h w. w;
  close_handle = λ h w. w;
  control_out = λ h rq bytes w. (none, w);
  control_in = λ h rq n w. (none, w);
  write_pipe = λ h pipe bytes w. (none, w);
  read_pipe = λ h pipe n w. (none, w);
}

abbrev process : Debuggee (Unit {0})
process = record {
  read_process_memory = λ a n w. (some area, w);
  write_process_memory = λ a bytes w. (none, w);
  virtual_alloc_ex = λ n w. (none, w);
  get_thread_context = λ w. (none, w);
  set_thread_context = λ c w. (false, w);
}

abbrev start : Host (Unit {0})
start = record {
  world = tt;
  allocated = 0;
  freed = 0;
  opened = 0;
  closed = 0;
  initialized = 0;
  released = 0;
}

abbrev whole_line : List ℕ
whole_line = dump_header (b'p' ∷ []) pointer ++ (hex_dump (0xec ∷ []) ++ take 2 (hex_byte 0xc3))

print_instruction_dump_at-cut_example :
    let (out, s') =
      print_instruction_dump_at host process
        (λ a. pointer)
        (λ file. true)
        (b'a' ∷ [])
        (b'0' ∷ [])
        (b'p' ∷ [])
        0x401000
        7
        (log_of 5 [] [])
        start in
    (out
      ≡ returned (log_of 4 ((b'a' ∷ []) ∷ []) ((b'a' ∷ [], stamped (b'0' ∷ []) whole_line) ∷ [])))
    × (s'.allocated + 0 ≡ 0 + s'.freed)
unfolding log_line hex_dump find_used slots_of free_at set_slot with_stream pending
print_instruction_dump_at-cut_example =
    print_instruction_dump_at-cut host process (λ a. pointer) (λ file. true) (b'a' ∷ []) (b'0' ∷ [])
      (b'p' ∷ []) 0x401000 1 area 0xc3 (1 ∷ 2 ∷ 3 ∷ 4 ∷ 5 ∷ []) (log_of 5 [] [])
      (log_of 4 ((b'a' ∷ []) ∷ []) ((b'a' ∷ [], stamped (b'0' ∷ []) whole_line) ∷ [])) start
      (λ n w. refl) refl refl refl refl refl
