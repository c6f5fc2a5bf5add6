-- ===== src/Lpt/Direction.antt =====
-- The direction of the data lines against what the driver of Firmware/AVRUSBLPT/lpt.c takes it to
-- be.
use lpt_to_usb_adapter.Base.{ℕ, ◌≡◌, ◌∙◌, refl, Bool, true, false, arith}
use lpt_to_usb_adapter.Lpt.Pins.{
  Board, Mcu, Mode, legacy, Reg, pdata, pstat, pcon, addstr, datastr, data_set,
}
use lpt_to_usb_adapter.Lpt.Driver.{init, set_mode, set_reg, get_reg, data_is_output}
use lpt_to_usb_adapter.Lpt.Handshake.{ready_at, epp_write_lem, epp_read_lem}
use lpt_to_usb_adapter.Lpt.Registers.{strobe_reg}
use lpt_to_usb_adapter.Lpt.Invariant.{Directed}

-- The data lines have the direction by which the driver serves the data register.
abbrev pub IsConsistent : Mcu → Type 0
IsConsistent m = Directed (data_is_output m) m.io

-- `LPT_Init` makes the direction right, whatever it was.
pub init-IsConsistent : (m : Mcu) → IsConsistent (init m).1
unfolding init
init-IsConsistent m = ground arith

pub set_mode-IsConsistent :
    (mode : Mode) (m : Mcu) → IsConsistent m → IsConsistent (set_mode mode m).1
unfolding set_mode
set_mode-IsConsistent mode m h = ground arith

module _ (board : Board) where
  -- No write of a register, with whatever value and outcome, breaks the agreement between the
  -- direction of the data lines and the one by which the driver serves the data register.
  pub set_reg-IsConsistent :
      (reg : Reg) (value : ℕ) (m : Mcu)
      → IsConsistent m
      → IsConsistent (set_reg board reg value m).1
  unfolding set_reg data_set
  set_reg-IsConsistent pdata value m h = ground arith
  set_reg-IsConsistent pstat value m h = h
  set_reg-IsConsistent pcon value m h = ground arith
  set_reg-IsConsistent addstr value m h =
      ground (arith, epp_write_lem board value true (record m { last_addstr = value }))
  set_reg-IsConsistent datastr value m h =
      ground (arith, epp_write_lem board value false (record m { last_addstr = value }))

  read_leaves_inputs :
      (addr_mode : Bool) (m : Mcu)
      → ready_at board m.io m.reads ≡ false
      → let m' = (get_reg board (strobe_reg addr_mode) m).1 in
        (m'.active_mode ≡ m.active_mode) × Directed false m'.io
  unfolding get_reg
  read_leaves_inputs true m free = ground (arith, epp_read_lem board true m)
  read_leaves_inputs false m free = ground (arith, epp_read_lem board false m)

  write_unseen :
      (value : ℕ) (m : Mcu)
      → m.active_mode ≡ legacy
      → Directed false m.io
      → let m' = (set_reg board pdata value m).1 in
        ((get_reg board pdata m').0 ≡ value) × Directed false m'.io
  unfolding get_reg set_reg data_set
  write_unseen value m e lines = rw e (refl, lines)

  -- In legacy mode, a read of a strobe register that finds nBUSY low leaves the data lines as
  -- inputs while the driver goes on to take them for outputs: a value written to the data register
  -- is then read back as written, and the lines stay inputs.
  pub get_reg-legacy_strands :
      (addr_mode : Bool) (value : ℕ) (m : Mcu)
      → m.active_mode ≡ legacy
      → ready_at board m.io m.reads ≡ false
      → let m' = (get_reg board (strobe_reg addr_mode) m).1 in
        let m'' = (set_reg board pdata value m').1 in
        (data_is_output m' ≡ true)
        × Directed false m'.io
        × ((get_reg board pdata m'').0 ≡ value)
        × Directed false m''.io
  get_reg-legacy_strands addr_mode value m e free =
      let (mode, lines) = read_leaves_inputs addr_mode m free in
      let m' = (get_reg board (strobe_reg addr_mode) m).1 in
      let (kept, after) = write_unseen value m' (mode ∙ e) lines in
      (rw (mode, e), lines, kept, after)
