-- ===== src/Injector/Dump.antt =====
-- `PrintInstructionDumpAt` of LptToUsbAdapter/LptPatchInjector/CommonCode.c.
use lpt_to_usb_adapter.Base.{
  ℕ, ◌+◌, ◌-◌, ◌*◌, ◌/◌, ◌%◌, Bool, none, some, List, [], ◌∷◌, ◌++◌, length, take, ◌==◌,
  if◌then◌else◌, u8, capital_digit,
}
use lpt_to_usb_adapter.Usb.Api.{Api, M, pure, ◌>>=◌, ◌>>◌, call, alloc, free}
use lpt_to_usb_adapter.Injector.Debuggee.{Debuggee}
use lpt_to_usb_adapter.Injectee.Ports.{Outcome, died, returned}
use lpt_to_usb_adapter.Injector.Log.{Log, log_line}

-- `"%.2hhX "`
abbrev pub hex_byte : ℕ → List ℕ
hex_byte byte = capital_digit (u8 byte / 16) ∷ capital_digit (u8 byte % 16) ∷ 32 ∷ []

-- `snprintf(line + strlen(line), size - strlen(line), ...)`: what fits before the zero byte.
abbrev pub print_more : ℕ → List ℕ → List ℕ → List ℕ
print_more size line text = line ++ take (size - length line - 1) text

-- The loop over the bytes.
unfoldable pub print_bytes : ℕ → List ℕ → List ℕ → List ℕ
print_bytes size line [] = line
print_bytes size line (byte ∷ bytes) = print_bytes size (print_more size line (hex_byte byte)) bytes

-- `"%s (at %p): "`, where `%p` prints as the C library does.
abbrev pub dump_header : List ℕ → List ℕ → List ℕ
dump_header prefix pointer =
    prefix ++ (32 ∷ b'(' ∷ b'a' ∷ b't' ∷ 32 ∷ (pointer ++ b')' ∷ b':' ∷ 32 ∷ []))

unfoldable pub dump_line : List ℕ → List ℕ → ℕ → List ℕ → List ℕ
dump_line prefix pointer len bytes =
    let size = len * 3 + 1 + length prefix in
    print_bytes size (print_more size [] (dump_header prefix pointer)) bytes

module _ {W : Type 0} (api : Api W) (debuggee : Debuggee W) (pointer_text : ℕ → List ℕ)
    (opens : List ℕ → Bool) where
  -- `free` after `LogLine` came back.
  abbrev pub free_line : Outcome Log → M W (Outcome Log)
  free_line died = pure died
  free_line (returned log) = free >> pure (returned log)

  abbrev pub log_dump : List ℕ → List ℕ → List ℕ → ℕ → ℕ → List ℕ → Log → M W (Outcome Log)
  log_dump file timebuffer prefix address len bytes log =
      let line = dump_line prefix (pointer_text address) len bytes in
      do
        got ← alloc api (len * 3 + 1 + length prefix)
        _ ← free
        if got then free_line (log_line opens file timebuffer line log) else pure (returned log)

  abbrev pub dump_read : List ℕ → List ℕ → List ℕ → ℕ → ℕ → Log → M W (Outcome Log)
  dump_read file timebuffer prefix address len log = do
    readed ← call (debuggee.read_process_memory address len)
    elim readed [
      | none ↦ free >> pure (returned log)
      | some bytes ↦
          if length bytes == len
          then log_dump file timebuffer prefix address len bytes log
          else free >> pure (returned log)
    ]

  -- `PrintInstructionDumpAt`, given the time as `LogLine` prints it.
  unfoldable pub print_instruction_dump_at :
      List ℕ → List ℕ → List ℕ → ℕ → ℕ → Log → M W (Outcome Log)
  print_instruction_dump_at file timebuffer prefix address len log = do
    got ← alloc api len
    if got then dump_read file timebuffer prefix address len log else pure (returned log)
