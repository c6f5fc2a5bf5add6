-- ===== src/Access/Timing.antt =====
-- `TestTime` and `main` of LptToUsbAdapter/LptPortAccessDemo/LptPortAccessDemo.c.
use lpt_to_usb_adapter.Base.{ℕ, ◌+◌, Bool, true, false, ◌||◌, List, ◌==◌, if◌then◌else◌}
use lpt_to_usb_adapter.Access.Texts.{
  bypass_name, data_write_name, data_read_name, status_write_name, address_write_name,
  address_read_name, strobe_write_name, strobe_read_name, nop_name, invalid_selection, end_line,
  ioperm_prompt, ioperm_failed, menu,
}
use lpt_to_usb_adapter.Access.Demo.{
  Console, lpt_base, repeat, monitor_data, monitor_status, write_data, write_control,
}

-- The clock, whose values and their printing are left open; a key, after which the rest of the line
-- is dropped; and `ioperm` on a first port and a number of ports, which is nonzero when it fails.
pub record System (W T : Type 0) : Type 0 where
  pub get_sec_msec_time : W → T × W
  pub print_time : List ℕ → ℕ → T → T → W → W
  pub getchar : W → ℕ × W
  pub ioperm : ℕ → ℕ → W → Bool × W

abbrev pub bypass : ℕ
bypass = 0x77a

module _ {W T : Type 0} (console : Console W) (system : System W T) where
  -- `TEST_TIME`
  unfoldable pub time_of : ℕ → List ℕ → (W → W) → W → W
  time_of times test_name test_instruction w =
      let (start, w) = system.get_sec_msec_time w in
      let w = repeat times test_instruction w in
      let (end, w) = system.get_sec_msec_time w in system.print_time test_name times start end w

  abbrev pub read_port : ℕ → W → W
  read_port port w = (console.inb port w).1

  -- `TestTime`, with its number of cycles.
  unfoldable pub test_time : ℕ → W → W
  test_time max_cycles w =
      let w = time_of max_cycles bypass_name (console.outb bypass 0) w in
      let w = time_of max_cycles data_write_name (console.outb (lpt_base + 0) 0) w in
      let w = time_of max_cycles data_read_name (read_port (lpt_base + 0)) w in
      let w = time_of max_cycles status_write_name (console.outb (lpt_base + 1) 0) w in
      let w = time_of max_cycles address_write_name (console.outb (lpt_base + 3) 0) w in
      let w = time_of max_cycles address_read_name (read_port (lpt_base + 3)) w in
      let w = time_of max_cycles strobe_write_name (console.outb (lpt_base + 4) 0) w in
      let w = time_of max_cycles strobe_read_name (read_port (lpt_base + 4)) w in
      time_of max_cycles nop_name (λ w. w) w

  -- The `switch` of `main`, and whether it comes to its end: the first four modes have none, and
  -- run here for a number of rounds, from what their `user_input` holds.
  abbrev pub run_mode : ℕ → ℕ → List ℕ → W → Bool × W
  run_mode mode n user_input w =
      if mode == b'1'
      then (false, monitor_data console n w)
      else if mode == b'2'
      then (false, write_data console n user_input w)
      else if mode == b'3'
      then (false, monitor_status console n w)
      else if mode == b'4'
      then (false, write_control console n user_input w)
      else if mode == b'5'
      then (true, test_time 500000 w)
      else (true, console.print invalid_selection w)

  -- `main` after the rights to the ports.
  abbrev pub choose_mode : ℕ → List ℕ → W → W
  choose_mode n user_input w =
      let (mode, w) = system.getchar (console.print menu w) in
      let (ends, w) = run_mode mode n user_input w in if ends then console.print end_line w else w

  -- Outside Windows the rights are asked for first; the second call is made if the first is fine.
  abbrev pub ask_rights : W → Bool × W
  ask_rights w =
      let (failed, w) = system.ioperm bypass 1 w in
      if failed then (failed, w) else system.ioperm lpt_base 5 w

  unfoldable pub main : Bool → ℕ → List ℕ → W → W
  main windows n user_input w =
      let (use_ioperm, asked) = system.getchar (console.print ioperm_prompt w) in
      let (failed, allowed) = ask_rights asked in
      if windows
      then choose_mode n user_input w
      else if (use_ioperm == b'y') || (use_ioperm == b'Y')
      then if failed then console.print ioperm_failed allowed else choose_mode n user_input allowed
      else choose_mode n user_input asked
