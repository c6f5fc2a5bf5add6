-- ===== src/Access/Demo.antt =====
-- The modes of LptToUsbAdapter/LptPortAccessDemo/LptPortAccessDemo.c that run until the program is
-- ended, over its port instructions and its console.
use lpt_to_usb_adapter.Base.{
  ℕ, zero, suc, ◌+◌, ◌/◌, ◌%◌, Option, none, some, List, [], ◌∷◌, ◌++◌, ltb, if◌then◌else◌, bit, u8,
  capital_digit,
}
use lpt_to_usb_adapter.Access.Texts.{
  data_title, status_title, data_prompt, control_prompt, invalid_input, pcon_title,
}

-- `Inb` and `Outb`; what the console reads and prints. `fgets` gives `none` at the end of input.
pub record Console (W : Type 0) : Type 0 where
  pub inb : ℕ → W → ℕ × W
  pub outb : ℕ → ℕ → W → W
  pub fgets : ℕ → W → Option (List ℕ) × W
  pub print : List ℕ → W → W
  pub strtoul : List ℕ → ℕ

abbrev pub lpt_base : ℕ
lpt_base = 0x378

-- `"%d"` of `ISBIT(byte, num)`
abbrev pub bit_char : ℕ → ℕ → ℕ
bit_char byte num = if bit byte num then b'1' else b'0'

-- The line that `MonitorData` makes of a byte, and that of `MonitorStatus`.
abbrev pub data_line : ℕ → List ℕ
data_line byte =
    bit_char byte 7
    ∷ 32
    ∷ 32
    ∷ bit_char byte 6
    ∷ 32
    ∷ 32
    ∷ bit_char byte 5
    ∷ 32
    ∷ 32
    ∷ bit_char byte 4
    ∷ 32
    ∷ 32
    ∷ bit_char byte 3
    ∷ 32
    ∷ 32
    ∷ bit_char byte 2
    ∷ 32
    ∷ 32
    ∷ bit_char byte 1
    ∷ 32
    ∷ 32
    ∷ bit_char byte 0
    ∷ []

abbrev pub status_line : ℕ → List ℕ
status_line byte =
    bit_char byte 7
    ∷ 32
    ∷ 32
    ∷ 32
    ∷ 32
    ∷ bit_char byte 6
    ∷ 32
    ∷ 32
    ∷ 32
    ∷ 32
    ∷ bit_char byte 5
    ∷ 32
    ∷ 32
    ∷ 32
    ∷ 32
    ∷ 32
    ∷ 32
    ∷ bit_char byte 4
    ∷ 32
    ∷ 32
    ∷ 32
    ∷ 32
    ∷ 32
    ∷ 32
    ∷ bit_char byte 3
    ∷ []

-- Rounds of a loop without an end.
unfoldable pub repeat : {S : Type 0} → ℕ → (S → S) → S → S
repeat zero round s = s
repeat (suc n) round s = repeat n round (round s)

module _ {W : Type 0} (console : Console W) where
  -- One round of a loop that monitors a port; the pause leaves no trace.
  abbrev pub show_port : ℕ → (ℕ → List ℕ) → W → W
  show_port port line w = let (byte, w) = console.inb port w in console.print (13 ∷ line byte) w

  -- `MonitorData` up to its loop.
  abbrev pub begin_monitor_data : W → W
  begin_monitor_data w =
      let (control, w) = console.inb (lpt_base + 2) (console.outb (lpt_base + 2) 0x20 w) in
      let w =
        console.print
          (pcon_title
            ++ capital_digit (u8 control / 16) ∷ capital_digit (u8 control % 16) ∷ 10 ∷ [])
          w in
      console.print data_title w

  -- `MonitorData` for a number of rounds.
  unfoldable pub monitor_data : ℕ → W → W
  monitor_data n w = repeat n (show_port lpt_base data_line) (begin_monitor_data w)

  -- `MonitorStatus` for a number of rounds.
  unfoldable pub monitor_status : ℕ → W → W
  monitor_status n w =
      repeat n (show_port (lpt_base + 1) status_line) (console.print status_title w)

  -- `user_input` after `fgets`, which leaves it alone at the end of input.
  abbrev pub line_or : List ℕ → Option (List ℕ) → List ℕ
  line_or user_input none = user_input
  line_or user_input (some line) = line

  -- One round of a loop that writes a port.
  abbrev pub write_port : List ℕ → ℕ → ℕ → List ℕ × W → List ℕ × W
  write_port prompt limit port (user_input, w) =
      let (line, w) = console.fgets 32 (console.print prompt w) in
      let user_input = line_or user_input line in
      let input_bin = console.strtoul user_input in
      (
        user_input,
        if ltb limit input_bin
            then console.print invalid_input w
            else console.outb port (u8 input_bin) w,
      )

  -- `WriteData` and `WriteControl` for a number of rounds, given what `user_input` holds at first.
  unfoldable pub write_data : ℕ → List ℕ → W → W
  write_data n user_input w =
      (repeat n (write_port data_prompt 255 lpt_base)
        (user_input, console.outb (lpt_base + 2) 0 w)).1

  unfoldable pub write_control : ℕ → List ℕ → W → W
  write_control n user_input w =
      (repeat n (write_port control_prompt 15 (lpt_base + 2)) (user_input, w)).1
