-- ===== src/Injector/Dumping.antt =====
-- What `PrintInstructionDumpAt` of LptToUsbAdapter/LptPatchInjector/CommonCode.c prints.
use lpt_to_usb_adapter.Base.{
  ℕ, zero, suc, ◌+◌, ◌-◌, ◌*◌, ◌≡◌, refl, sym, ap, ◌∙◌, Bool, some, List, [], ◌∷◌, ◌++◌, length,
  take, drop, length-append, length-drop, ==_iff, true, append_assoc, append-nil, take_more,
  take-append, arith,
}
use lpt_to_usb_adapter.Usb.Api.{Api, Host}
use lpt_to_usb_adapter.Injector.Debuggee.{Debuggee}
use lpt_to_usb_adapter.Injectee.Ports.{returned}
use lpt_to_usb_adapter.Injector.Log.{Log, log_line}
use lpt_to_usb_adapter.Injector.Dump.{
  hex_byte, print_more, print_bytes, dump_header, dump_line, print_instruction_dump_at,
}

-- The bytes as the loop would print them into a buffer without an end.
unfoldable pub hex_dump : List ℕ → List ℕ
hex_dump [] = []
hex_dump (byte ∷ bytes) = hex_byte byte ++ hex_dump bytes

print_more-take :
    (n : ℕ) (text more : List ℕ) → print_more (suc n) (take n text) more ≡ take n (text ++ more)
print_more-take n text more =
    let e : suc n - length (take n text) - 1 ≡ n - length (take n text) = omega arith in
    rw (print_more, e) (take_more n text more)

print_bytes-take :
    (n : ℕ) (text bytes : List ℕ)
    → print_bytes (suc n) (take n text) bytes ≡ take n (text ++ hex_dump bytes)
unfolding print_bytes hex_dump
print_bytes-take n text [] = ap (take n) (sym (append-nil text))
print_bytes-take n text (byte ∷ bytes) = rw (print_more-take n text (hex_byte byte)) (
    print_bytes-take n (text ++ hex_byte byte) bytes
    ∙ ap (take n) (append_assoc text (hex_byte byte) (hex_dump bytes)))

dump_line-take :
    (prefix pointer : List ℕ) (len : ℕ) (bytes : List ℕ)
    → dump_line prefix pointer len bytes
      ≡ take (len * 3 + length prefix) (dump_header prefix pointer ++ hex_dump bytes)
unfolding dump_line
dump_line-take prefix pointer len bytes =
    let size : len * 3 + 1 + length prefix ≡ suc (len * 3 + length prefix) = omega arith in
    let room : suc (len * 3 + length prefix) - 0 - 1 ≡ len * 3 + length prefix = omega arith in
    rw (size, room) (print_bytes-take (len * 3 + length prefix) (dump_header prefix pointer) bytes)

hex_dump-cut :
    (k : ℕ) (bytes : List ℕ) (byte : ℕ) (rest : List ℕ)
    → drop k bytes ≡ byte ∷ rest
    → take (k * 3 + 2) (hex_dump bytes) ≡ hex_dump (take k bytes) ++ take 2 (hex_byte byte)
unfolding hex_dump
hex_dump-cut zero bytes byte rest e = rw e refl
hex_dump-cut (suc k) [] byte rest e = ground (arith, e)
hex_dump-cut (suc k) (b ∷ bytes) byte rest e =
    let n : suc k * 3 + 2 ≡ suc (suc (suc (k * 3 + 2))) = omega arith in
    rw (n, hex_dump-cut k bytes byte rest e) refl

length-dump_header :
    (prefix pointer : List ℕ)
    → length (dump_header prefix pointer) ≡ length prefix + (length pointer + 8)
length-dump_header prefix pointer = omega (
  arith,
  length-append prefix (32 ∷ b'(' ∷ b'a' ∷ b't' ∷ 32 ∷ (pointer ++ b')' ∷ b':' ∷ 32 ∷ [])),
  length-append pointer (b')' ∷ b':' ∷ 32 ∷ []),
)

-- With pointers of eight digits the line ends early: before the last five bytes, and without the
-- blank after the byte before them.
dump_line-cut :
    (prefix pointer : List ℕ) (k : ℕ) (bytes : List ℕ) (byte : ℕ) (rest : List ℕ)
    → length pointer ≡ 8
    → drop k bytes ≡ byte ∷ rest
    → length rest ≡ 5
    → dump_line prefix pointer (length bytes) bytes
      ≡ dump_header prefix pointer ++ (hex_dump (take k bytes) ++ take 2 (hex_byte byte))
dump_line-cut prefix pointer k bytes byte rest eight at five =
    let total : length bytes ≡ k + 6 = omega (arith, length-drop k bytes, ap length at) in
    let header = length-dump_header prefix pointer in
    let n : length bytes * 3 + length prefix ≡ length (dump_header prefix pointer) + (k * 3 + 2) =
      omega (arith, header, total) in
    dump_line-take prefix pointer (length bytes) bytes
    ∙ rw n (
        take-append (k * 3 + 2) (dump_header prefix pointer) (hex_dump bytes)
        ∙ ap (dump_header prefix pointer ++◌) (hex_dump-cut k bytes byte rest at))

module _ {W : Type 0} (api : Api W) (debuggee : Debuggee W) (pointer_text : ℕ → List ℕ)
    (opens : List ℕ → Bool) where
  -- If memory is given, the whole area of at least six bytes can be read and a pointer is printed
  -- in eight digits, then the dump is one line of the log that shows the prefix, the address and
  -- all bytes but the last five in hexadecimal, and a call that returns has given back the memory
  -- it took.
  pub print_instruction_dump_at-cut :
      (file time prefix : List ℕ) (address k : ℕ) (bytes : List ℕ) (byte : ℕ) (rest : List ℕ)
      (log log' : Log) (s : Host W)
      → ((n : ℕ) (w : W) → (api.malloc n w).0 ≡ true)
      → (debuggee.read_process_memory address
          (length bytes)
          (api.malloc (length bytes) s.world).1).0
        ≡ some bytes
      → length (pointer_text address) ≡ 8
      → drop k bytes ≡ byte ∷ rest
      → length rest ≡ 5
      → log_line opens file time
          (dump_header prefix (pointer_text address)
            ++ (hex_dump (take k bytes) ++ take 2 (hex_byte byte)))
          log
        ≡ returned log'
      → let (out, s') =
          print_instruction_dump_at api debuggee pointer_text opens file time prefix address
            (length bytes)
            log
            s in
        (out ≡ returned log') × (s'.allocated + s.freed ≡ s.allocated + s'.freed)
  unfolding print_instruction_dump_at
  print_instruction_dump_at-cut file time prefix address k bytes byte rest log log' s given read
        eight at five line =
      let len = length bytes in
      let got = given len s.world in
      let size = len * 3 + 1 + length prefix in
      let got' =
        given size (debuggee.read_process_memory address len (api.malloc len s.world).1).1 in
      let same = (==_iff len len).1 refl in
      let whole_line =
        dump_line-cut prefix (pointer_text address) k bytes byte rest eight at five in
      let logged = ap (λ (l : List ℕ). log_line opens file time l log) whole_line ∙ line in
      ground (arith, got, got', read, same, logged)
