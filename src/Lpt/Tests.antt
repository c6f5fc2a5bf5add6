-- ===== src/Lpt/Tests.antt =====
-- Concrete runs of the driver in Firmware/AVRUSBLPT/lpt.c.
use lpt_to_usb_adapter.Base.{
  ◌%◌, ◌≡◌, refl, true, false, not, ◌&&◌, ◌||◌, arith, leb, if◌then◌else◌, some,
}
use lpt_to_usb_adapter.Lpt.Pins.{
  Board, Io, Mcu, Pins, Reg8, legacy, epp, data_latches, data_set, pdata, pstat, pcon, addstr,
}
use lpt_to_usb_adapter.Lpt.Epp.{epp_write, epp_read}
use lpt_to_usb_adapter.Lpt.Driver.{init, set_reg, get_reg, data_is_output}
use lpt_to_usb_adapter.Lpt.Lines.{SameControl, data_lines, lines_showing}
use lpt_to_usb_adapter.Lpt.Handshake.{write_lines, read_lines, ready_at}
use lpt_to_usb_adapter.Lpt.Cycle.{Holds, Shows, epp_write-success, epp_read-success}
use lpt_to_usb_adapter.Lpt.Invariant.{Directed, IsStored}
use lpt_to_usb_adapter.Lpt.Registers.{
  get_reg-set_reg_pdata, get_reg-set_reg_pcon, status-set_reg_strobe,
}
use lpt_to_usb_adapter.Lpt.Direction.{
  IsConsistent, init-IsConsistent, set_reg-IsConsistent, get_reg-legacy_strands,
}

abbrev pub zeroes : Reg8
zeroes = record {
  b0 = false;
  b1 = false;
  b2 = false;
  b3 = false;
  b4 = false;
  b5 = false;
  b6 = false;
  b7 = false;
}

abbrev pub cleared : Mcu
cleared = record {
  io = record {
    ddrb = zeroes;
    ddrc = zeroes;
    ddrd = zeroes;
    portb = zeroes;
    portc = zeroes;
    portd = zeroes;
  };
  reads = 0;
  active_mode = legacy;
  last_pcon = 0;
  last_pdata = 0;
  last_pstat = 0;
  last_addstr = 0;
  last_datastr = 0;
}

abbrev started : Mcu
started = (init cleared).1

abbrev in_epp : Mcu
in_epp = record started { active_mode = epp }

-- nBUSY low, and the byte 0xa5 under a raised nBUSY.
abbrev pub idle : Pins
idle = record { pinb = zeroes; pinc = zeroes; pind = zeroes }

abbrev pub answering : Pins
answering = record {
  pinb = record zeroes { b1 = true; b5 = true; b3 = true };
  pinc = record zeroes { b4 = true; b2 = true };
  pind = zeroes;
}

-- A device that raises nBUSY at the fourth read, while a strobe is low.
abbrev pub responder : Board
responder k io = if (not io.portd.b0 || not io.portd.b5) && leb 3 k then answering else idle

responder-Holds : (io : Io) → Holds (ready_at responder io)
responder-Holds io k h = ground arith

responder-Shows : (io : Io) → Shows responder io answering
responder-Shows io k h = ground arith

cleared-IsStored : IsStored cleared
cleared-IsStored = omega arith

epp_write-success_example : (epp_write responder 0xa5 true in_epp).0 ≡ true
unfolding init data_set
epp_write-success_example =
    epp_write-success responder 0xa5 true in_epp (responder-Holds (write_lines 0xa5 true in_epp.io))

epp_read-success_example : (epp_read responder false in_epp).0 ≡ some 0xa5
unfolding init
epp_read-success_example =
    epp_read-success responder false in_epp answering (responder-Holds (read_lines false in_epp.io))
      (responder-Shows (read_lines false in_epp.io))

get_reg-set_reg_pdata_example :
    let m' = (set_reg responder pdata 0x5a started).1 in
    ((get_reg responder pdata m').0 ≡ 0x5a)
    × (data_latches m'.io ≡ 0x5a)
    × (data_lines m'.io ≡ lines_showing started.io 0x5a)
    × SameControl m'.io started.io
unfolding init
get_reg-set_reg_pdata_example = get_reg-set_reg_pdata responder 0x5a started (omega arith) refl

get_reg-set_reg_pcon_example :
    let m' = (set_reg responder pcon 0x3f in_epp).1 in
    ((get_reg responder pcon m').0 ≡ 0x3f)
    × (m'.io.portc.b5 ≡ false)
    × (m'.io.portd.b0 ≡ false)
    × (m'.io.portd.b3 ≡ true)
    × (m'.io.portd.b5 ≡ false)
    × (false ≡ false → Directed false m'.io)
    × (data_latches m'.io ≡ data_latches in_epp.io)
get_reg-set_reg_pcon_example = get_reg-set_reg_pcon responder 0x3f in_epp

-- A time-out that was not read yet shows after a cycle that succeeds.
status-set_reg_strobe_example :
    let m = record in_epp { last_pstat = 1 } in
    let done = (epp_write responder 0xa5 true (record m { last_addstr = 0xa5 })).0 in
    let m' = (set_reg responder addstr 0xa5 m).1 in
    let status = get_reg responder pstat m' in
    (status.0 % 2 ≡ (if done then 1 else 1)) × ((get_reg responder pstat status.1).0 % 2 ≡ 0)
unfolding init
status-set_reg_strobe_example =
    status-set_reg_strobe responder true 0xa5 (record in_epp { last_pstat = 1 }) (omega arith) refl

set_reg-IsConsistent_example : IsConsistent (set_reg responder pcon 0x20 started).1
set_reg-IsConsistent_example =
    set_reg-IsConsistent responder pcon 0x20 started (init-IsConsistent cleared)

get_reg-legacy_strands_example :
    let m' = (get_reg responder addstr started).1 in
    let m'' = (set_reg responder pdata 0x5a m').1 in
    (data_is_output m' ≡ true)
    × Directed false m'.io
    × ((get_reg responder pdata m'').0 ≡ 0x5a)
    × Directed false m''.io
unfolding init
get_reg-legacy_strands_example = get_reg-legacy_strands responder true 0x5a started refl refl
