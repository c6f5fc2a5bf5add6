-- ===== src/Lpt/Epp.antt =====
-- `EppWrite` and `EppRead` of Firmware/AVRUSBLPT/lpt.c. The delays leave no trace but the number
-- of the next read.
use lpt_to_usb_adapter.Base.{
  ℕ, zero, suc, ◌+◌, Bool, true, false, not, Option, none, some, bit, if◌then◌else◌,
}
use lpt_to_usb_adapter.Lpt.Pins.{
  Board, M, Mcu, pure, ◌>>=◌, ◌>>◌, modify, drive, set_nstrobe, set_nline_feed, set_nselect_printer,
  out_data, in_data, data_set, get_nbusy, data_get,
}

module _ (board : Board) where
  -- `while(timeout != 0 && GET_nBUSY() == 0) timeout--;`
  unfoldable pub wait_ready : ℕ → M (Unit {0})
  wait_ready zero m = (tt, m)
  wait_ready (suc timeout) m =
      let (ready, m') = get_nbusy board m in
      let rest = wait_ready timeout m' in if ready then (tt, m') else rest

  -- `PCON & _BV(5)` selects the direction of the data lines again.
  abbrev unsetup : M (Unit {0})
  unsetup m = drive (if bit m.last_pcon 5 then in_data else out_data) m

  -- The cycle of `EppWrite` once the device is seen to be ready for it.
  abbrev write_cycle : ℕ → Bool → M Bool
  write_cycle byte addr_mode = do
    drive out_data
    drive (set_nstrobe false)
    drive (data_set byte)
    drive (set_nline_feed addr_mode)
    drive (set_nselect_printer (not addr_mode))
    wait_ready 10
    success ← get_nbusy board
    drive (set_nline_feed true)
    drive (set_nselect_printer true)
    drive (set_nstrobe true)
    unsetup
    pure success

  unfoldable pub epp_write : ℕ → Bool → M Bool
  epp_write byte addr_mode = do
    waiting ← get_nbusy board
    if waiting then pure false else write_cycle byte addr_mode

  -- `*data = DataGet()`, or no store when the device does not answer.
  abbrev fetch : Bool → M (Option ℕ)
  fetch false = pure none
  fetch true = do value ← data_get board; pure (some value)

  -- `if(GET_nBUSY() != 0) PCON |= _BV(5);`
  abbrev set_direction_bit : Bool → Mcu → Mcu
  set_direction_bit released m = record m {
    last_pcon =
        if released
        then (if bit m.last_pcon 5 then m.last_pcon else m.last_pcon + 32)
        else m.last_pcon;
  }

  abbrev read_cycle : Bool → M (Option ℕ)
  read_cycle addr_mode = do
    drive in_data
    drive (set_nstrobe true)
    drive (set_nline_feed addr_mode)
    drive (set_nselect_printer (not addr_mode))
    wait_ready 10
    success ← get_nbusy board
    value ← fetch success
    drive (set_nline_feed true)
    drive (set_nselect_printer true)
    released ← get_nbusy board
    modify (set_direction_bit released)
    pure value

  -- `none` is a return of false, which stores nothing to `*data`.
  unfoldable pub epp_read : Bool → M (Option ℕ)
  epp_read addr_mode = do
    waiting ← get_nbusy board
    if waiting then pure none else read_cycle addr_mode
