-- ===== src/Lpt/Driver.antt =====
-- The interface of Firmware/AVRUSBLPT/lpt.c: `LPT_Init`, `LPT_SetMode`, `LPT_SetReg`, `LPT_GetReg`.
use lpt_to_usb_adapter.Base.{
  ℕ, ◌+◌, ◌%◌, ◌^◌, Bool, true, false, not, ◌||◌, Option, none, some, bit, weight, if◌then◌else◌,
}
use lpt_to_usb_adapter.Lpt.Pins.{
  Board, M, Mcu, Mode, legacy, ps2, epp, Reg, pdata, pstat, pcon, addstr, datastr, pure, ◌>>=◌,
  ◌>>◌, modify, drive, set_nstrobe, set_nline_feed, set_reset, set_nselect_printer, out_control,
  in_status, out_data, in_data, data_set, get_error, get_ack, get_nbusy, get_paper_out, get_select,
  data_get,
}
use lpt_to_usb_adapter.Lpt.Epp.{epp_write, epp_read}

-- `a == b` on modes
abbrev pub mode_eq : Mode → Mode → Bool
mode_eq legacy legacy = true
mode_eq ps2 ps2 = true
mode_eq epp epp = true
mode_eq _ _ = false

-- `(ActiveMode == LPT_MODE_LEGACY) || !(PCON & _BV(5))`
abbrev pub data_is_output : Mcu → Bool
data_is_output m = mode_eq m.active_mode legacy || not (bit m.last_pcon 5)

unfoldable pub init : M (Unit {0})
init = do
  λ m. drive (if data_is_output m then out_data else in_data) m
  drive out_control
  drive in_status

unfoldable pub set_mode : Mode → M (Unit {0})
unfolding init
set_mode mode m =
    if mode_eq mode m.active_mode then (tt, m) else init (record m { active_mode = mode })

-- The control lines after a write of `PCON`; all but RESET are inverted.
abbrev set_control : ℕ → M (Unit {0})
set_control value = do
  drive (set_nstrobe (not (bit value 0)))
  drive (set_nline_feed (not (bit value 1)))
  drive (set_reset (bit value 2))
  drive (set_nselect_printer (not (bit value 3)))

unfoldable pub set_pcon : ℕ → M (Unit {0})
set_pcon value m =
    (if mode_eq m.active_mode legacy
        then modify (λ s. record s { last_pcon = value % 2 ^ 5 })
        else do
          modify (λ s. record s { last_pcon = value % 2 ^ 6 })
          drive (if bit (value % 2 ^ 6) 5 then in_data else out_data))
      m

-- `PSTAT |= 1` when a cycle fails
abbrev set_timeout : Mcu → Mcu
set_timeout m = record m {
  last_pstat = if bit m.last_pstat 0 then m.last_pstat else m.last_pstat + 1;
}

-- `DataSet(value); PDATA = value;`
abbrev write_data : ℕ → M (Unit {0})
write_data value = do drive (data_set value); modify (λ m. record m { last_pdata = value })

module _ (board : Board) where
  -- The two cases of `LPT_SetReg` that run an EPP cycle. Both keep the byte in `ADDSTR`.
  abbrev set_strobe : ℕ → Bool → M (Unit {0})
  set_strobe value addr_mode = do
    modify (λ m. record m { last_addstr = value })
    success ← epp_write board value addr_mode
    modify (λ m. if success then m else set_timeout m)

  unfoldable pub set_reg : Reg → ℕ → M (Unit {0})
  unfolding set_pcon
  set_reg pdata value m = (if data_is_output m then write_data value else pure tt) m
  set_reg pstat value m = (tt, m)
  set_reg pcon value m = (set_pcon value >> set_control value) m
  set_reg addstr value m = (if mode_eq m.active_mode epp then set_strobe value true else pure tt) m
  set_reg datastr value m =
      (if mode_eq m.active_mode epp then set_strobe value false else pure tt) m

  -- The status lines with the time-out bit, which is cleared.
  abbrev read_status : M ℕ
  read_status m =
      (do
        modify (λ s. record s { last_pstat = 0 })
        nbusy ← get_nbusy board
        ack ← get_ack board
        paper_out ← get_paper_out board
        select ← get_select board
        error ← get_error board
        pure (
            m.last_pstat % 2
            + weight (not nbusy) 128
            + weight ack 64
            + weight paper_out 32
            + weight select 16
            + weight error 8))
        m

  -- What `LPT_GetReg` returns for an EPP cycle: 0 if the cycle failed.
  abbrev received : Option ℕ → M ℕ
  received none = do modify set_timeout; pure 0
  received (some value) = pure value

  abbrev get_strobe : Bool → M ℕ
  get_strobe addr_mode = do value ← epp_read board addr_mode; received value

  unfoldable pub get_reg : Reg → M ℕ
  get_reg pdata m = if data_is_output m then (m.last_pdata, m) else data_get board m
  get_reg pstat m = read_status m
  get_reg pcon m = (m.last_pcon, m)
  get_reg addstr m = get_strobe true m
  get_reg datastr m = get_strobe false m
