-- ===== src/Lpt/Invariant.antt =====
-- What every call of the driver in Firmware/AVRUSBLPT/lpt.c keeps.
use lpt_to_usb_adapter.Base.{ℕ, ◌<◌, ◌≡◌, Bool, true, false, arith}
use lpt_to_usb_adapter.Lpt.Pins.{
  Board, Io, Mcu, Mode, Reg, pdata, pstat, pcon, addstr, datastr, data_set,
}
use lpt_to_usb_adapter.Lpt.Lines.{data_get_lem}
use lpt_to_usb_adapter.Lpt.Handshake.{epp_write_lem, epp_read_lem}
use lpt_to_usb_adapter.Lpt.Driver.{init, set_mode, set_reg, get_reg}

-- The direction of the eight data lines.
abbrev pub Directed : Bool → Io → Type 0
Directed x io =
    (io.ddrc.b0 ≡ x)
    × (io.ddrc.b1 ≡ x)
    × (io.ddrc.b2 ≡ x)
    × (io.ddrc.b3 ≡ x)
    × (io.ddrc.b4 ≡ x)
    × (io.ddrb.b3 ≡ x)
    × (io.ddrb.b4 ≡ x)
    × (io.ddrb.b5 ≡ x)

-- The control lines are outputs, the status lines are inputs, and the data lines have one
-- direction.
pub record IsWired (io : Io) : Type 0 where
  pub strobe_out : io.ddrc.b5 ≡ true
  pub line_feed_out : io.ddrd.b0 ≡ true
  pub reset_out : io.ddrd.b3 ≡ true
  pub select_printer_out : io.ddrd.b5 ≡ true
  pub error_in : io.ddrd.b1 ≡ false
  pub ack_in : io.ddrb.b2 ≡ false
  pub nbusy_in : io.ddrb.b1 ≡ false
  pub paper_out_in : io.ddrd.b6 ≡ false
  pub select_in : io.ddrd.b7 ≡ false
  pub data_directed : Directed io.ddrc.b0 io

-- The stored registers are in range; `DATASTR` is never written.
pub record IsStored (m : Mcu) : Type 0 where
  pub pcon_lt : m.last_pcon < 64
  pub pdata_lt : m.last_pdata < 256
  pub pstat_lt : m.last_pstat < 2
  pub addstr_lt : m.last_addstr < 256
  pub datastr_unused : m.last_datastr ≡ 0

pub record IsValid (m : Mcu) : Type 0 where
  pub wired : IsWired m.io
  pub stored : IsStored m

pub set_mode-IsStored : (mode : Mode) (m : Mcu) → IsStored m → IsStored (set_mode mode m).1
unfolding set_mode
set_mode-IsStored mode m h = ground arith

-- Setting the mode keeps the invariant.
pub set_mode-IsValid : (mode : Mode) (m : Mcu) → IsValid m → IsValid (set_mode mode m).1
unfolding set_mode
set_mode-IsValid mode m h = ground arith

-- `LPT_Init` wires the port, whatever the registers were.
pub init-IsValid : (m : Mcu) → IsStored m → IsValid (init m).1
unfolding init
init-IsValid m h = ground arith

module _ (board : Board) where
  -- From a valid state, a write of a byte to any register, whatever the hardware does, leaves the
  -- port wired and the stored registers in range.
  pub set_reg-IsValid :
      (reg : Reg) (value : ℕ) (m : Mcu)
      → value < 256
      → IsValid m
      → IsValid (set_reg board reg value m).1
  unfolding set_reg data_set
  set_reg-IsValid pdata value m v h = ground arith
  set_reg-IsValid pstat value m v h = h
  set_reg-IsValid pcon value m v h = ground arith
  set_reg-IsValid addstr value m v h =
      ground (arith, epp_write_lem board value true (record m { last_addstr = value }))
  set_reg-IsValid datastr value m v h =
      ground (arith, epp_write_lem board value false (record m { last_addstr = value }))

  -- From a valid state, a read of any register, in any mode and whatever the hardware does, leaves
  -- the port wired and the stored registers in range.
  pub get_reg-IsValid : (reg : Reg) (m : Mcu) → IsValid m → IsValid (get_reg board reg m).1
  unfolding get_reg
  get_reg-IsValid pdata m h = ground (arith, data_get_lem board m)
  get_reg-IsValid pstat m h = ground arith
  get_reg-IsValid pcon m h = h
  get_reg-IsValid addstr m h = ground (arith, epp_read_lem board true m)
  get_reg-IsValid datastr m h = ground (arith, epp_read_lem board false m)
