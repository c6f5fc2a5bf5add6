-- ===== src/Lpt/Pins.antt =====
-- The pins, the I/O registers and the static variables of Firmware/AVRUSBLPT/lpt.c, with the
-- macros that read and write single pins.
use lpt_to_usb_adapter.Base.{ℕ, ◌+◌, Bool, true, false, byte_of, bit}

-- An I/O register of the microcontroller: eight latches that are written one at a time.
pub record Reg8 : Type 0 where
  pub b0 : Bool
  pub b1 : Bool
  pub b2 : Bool
  pub b3 : Bool
  pub b4 : Bool
  pub b5 : Bool
  pub b6 : Bool
  pub b7 : Bool

-- The direction (`DDRx`) and output (`PORTx`) registers.
pub record Io : Type 0 where
  pub ddrb : Reg8
  pub ddrc : Reg8
  pub ddrd : Reg8
  pub portb : Reg8
  pub portc : Reg8
  pub portd : Reg8

-- The input registers (`PINx`).
pub record Pins : Type 0 where
  pub pinb : Reg8
  pub pinc : Reg8
  pub pind : Reg8

-- The hardware around the driver: what the input registers hold at the n-th volatile read,
-- given the registers that drive the lines.
abbrev pub Board : Type 0
Board = ℕ → Io → Pins

-- `AVRLPT_MODE`
pub data Mode : Type 0 where
  legacy ps2 epp : Mode

-- `AVRLPT_REG`
pub data Reg : Type 0 where
  pdata pstat pcon addstr datastr : Reg

-- The static variables, the registers, and the number of volatile reads made so far.
pub record Mcu : Type 0 where
  pub io : Io
  pub reads : ℕ
  pub active_mode : Mode
  pub last_pcon : ℕ
  pub last_pdata : ℕ
  pub last_pstat : ℕ
  pub last_addstr : ℕ
  pub last_datastr : ℕ

-- A function of the driver: its result, and the state that it leaves.
abbrev pub M : Type 0 → Type 0
M A = Mcu → A × Mcu

abbrev pub pure : {A : Type 0} → A → M A
pure a m = (a, m)

infixl 5 ◌>>=◌ ◌>>◌
abbrev pub ◌>>=◌ : {A B : Type 0} → M A → (A → M B) → M B
◌>>=◌ c f m = let (a, m') = c m in f a m'

abbrev pub ◌>>◌ : {B : Type 0} → M (Unit {0}) → M B → M B
c >> k = c >>= λ _. k

abbrev pub modify : (Mcu → Mcu) → M (Unit {0})
modify f m = (tt, f m)

-- A statement on the output registers.
abbrev pub drive : (Io → Io) → M (Unit {0})
drive f m = (tt, record m { io = f m.io })

abbrev pub get : M Mcu
get m = (m, m)

-- The control lines, `SET_nSTROBE` to `SET_nSELECT_PRINTER`.
abbrev pub set_nstrobe : Bool → Io → Io
set_nstrobe x io = record io { portc = record (io.portc) { b5 = x } }

abbrev pub set_nline_feed : Bool → Io → Io
set_nline_feed x io = record io { portd = record (io.portd) { b0 = x } }

abbrev pub set_reset : Bool → Io → Io
set_reset x io = record io { portd = record (io.portd) { b3 = x } }

abbrev pub set_nselect_printer : Bool → Io → Io
set_nselect_printer x io = record io { portd = record (io.portd) { b5 = x } }

-- `OUT_nSTROBE(); OUT_nLINE_FEED(); OUT_RESET(); OUT_nSELECT_PRINTER();`
abbrev pub out_control : Io → Io
out_control io = record io {
  ddrc = record (io.ddrc) { b5 = true };
  ddrd = record (io.ddrd) { b0 = true; b3 = true; b5 = true };
}

-- `IN_ERROR(); IN_ACK(); IN_nBUSY(); IN_PAPER_OUT(); IN_SELECT();`
abbrev pub in_status : Io → Io
in_status io = record io {
  ddrb = record (io.ddrb) { b1 = false; b2 = false };
  ddrd = record (io.ddrd) { b1 = false; b6 = false; b7 = false };
}

-- The direction of the eight data lines, D0 to D4 on port C and D5 to D7 on port B.
abbrev pub data_direction : Bool → Io → Io
data_direction x io = record io {
  ddrc = record (io.ddrc) { b0 = x; b1 = x; b2 = x; b3 = x; b4 = x };
  ddrb = record (io.ddrb) { b3 = x; b4 = x; b5 = x };
}

-- `OUT_DATA()`
abbrev pub out_data : Io → Io
out_data = data_direction true

-- `IN_DATA()`
abbrev pub in_data : Io → Io
in_data = data_direction false

-- `DataSet`: `SET_D0` to `SET_D7` with the bits of the value.
unfoldable pub data_set : ℕ → Io → Io
data_set value io = record io {
  portc = record (io.portc) {
    b4 = bit value 0;
    b3 = bit value 1;
    b2 = bit value 2;
    b1 = bit value 3;
    b0 = bit value 4;
  };
  portb = record (io.portb) { b5 = bit value 5; b4 = bit value 6; b3 = bit value 7 };
}

-- The byte in the output latches of the data lines, whatever their direction.
abbrev pub data_latches : Io → ℕ
data_latches io =
    byte_of io.portc.b4 io.portc.b3 io.portc.b2 io.portc.b1 io.portc.b0 io.portb.b5 io.portb.b4
      io.portb.b3

module _ (board : Board) where
  -- One volatile read of an input register.
  abbrev pub read_pin : (Pins → Bool) → M Bool
  read_pin line m = (line (board m.reads m.io), record m { reads = m.reads + 1 })

  abbrev pub get_error : M Bool
  get_error = read_pin (λ p. p.pind.b1)

  abbrev pub get_ack : M Bool
  get_ack = read_pin (λ p. p.pinb.b2)

  abbrev pub get_nbusy : M Bool
  get_nbusy = read_pin (λ p. p.pinb.b1)

  abbrev pub get_paper_out : M Bool
  get_paper_out = read_pin (λ p. p.pind.b6)

  abbrev pub get_select : M Bool
  get_select = read_pin (λ p. p.pind.b7)

  -- `DataGet`: eight reads, one for each line.
  unfoldable pub data_get : M ℕ
  data_get = do
    d0 ← read_pin (λ p. p.pinc.b4)
    d1 ← read_pin (λ p. p.pinc.b3)
    d2 ← read_pin (λ p. p.pinc.b2)
    d3 ← read_pin (λ p. p.pinc.b1)
    d4 ← read_pin (λ p. p.pinc.b0)
    d5 ← read_pin (λ p. p.pinb.b5)
    d6 ← read_pin (λ p. p.pinb.b4)
    d7 ← read_pin (λ p. p.pinb.b3)
    pure (byte_of d0 d1 d2 d3 d4 d5 d6 d7)
