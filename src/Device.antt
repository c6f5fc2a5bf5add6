-- ===== src/Device.antt =====
-- Firmware/AVRUSBLPT/main.c: the vendor requests of the adapter.
pub mod Requests
pub mod Eeprom
pub mod Tests
use lpt_to_usb_adapter.Base.{
  ℕ, zero, suc, ◌%◌, ◌/◌, ◌^◌, false, ltb, leb, ◌==◌, if◌then◌else◌, List, [], ◌∷◌, ◌++◌, replicate,
  u8, le32,
}
use lpt_to_usb_adapter.Lpt.Pins.{
  Board, Reg8, Mcu, Mode, legacy, ps2, epp, Reg, pdata, pstat, pcon, addstr, datastr,
}
use lpt_to_usb_adapter.Lpt.Driver.{init, set_mode, set_reg, get_reg}

-- A USB setup packet: `usbRequest_t` of the device and `WINUSB_SETUP_PACKET` of the host.
pub record SetupPacket : Type 0 where
  pub request_type : ℕ
  pub request : ℕ
  pub value : ℕ
  pub index : ℕ
  pub length : ℕ

-- `AVRLPT_COMMAND`
abbrev pub usblpt_get_version : ℕ
usblpt_get_version = 0x07

abbrev pub usblpt_set_mode : ℕ
usblpt_set_mode = 0x08

abbrev pub usblpt_set_reg : ℕ
usblpt_set_reg = 0x09

abbrev pub usblpt_get_reg : ℕ
usblpt_get_reg = 0x0a

abbrev pub get_ms_descriptor : ℕ
get_ms_descriptor = 126

-- `UsbLptVersion`; the date and time are those of the build.
pub record Version : Type 0 where
  pub revision : ℕ
  pub day : ℕ
  pub month : ℕ
  pub year : ℕ
  pub hour : ℕ
  pub minute : ℕ
  pub second : ℕ

-- The version in memory.
abbrev pub version_bytes : Version → List ℕ
version_bytes v =
    v.revision
    ∷ v.day
    ∷ v.month
    ∷ u8 v.year
    ∷ u8 (v.year / 2 ^ 8)
    ∷ v.hour
    ∷ v.minute
    ∷ v.second
    ∷ []

-- `msExtCompatDescriptor`: the header, then the function section for "WINUSB".
abbrev pub ms_ext_compat_descriptor : List ℕ
ms_ext_compat_descriptor =
    le32 40
    ++ (0x00
        ∷ 0x01
        ∷ 0x04
        ∷ 0x00
        ∷ 1
        ∷ (replicate 7 0
            ++ (0
                ∷ 1
                ∷ b'W'
                ∷ b'I'
                ∷ b'N'
                ∷ b'U'
                ∷ b'S'
                ∷ b'B'
                ∷ 0
                ∷ 0
                ∷ (replicate 8 0 ++ replicate 6 0))))

-- The device: the port, and the byte that answers a read.
pub record Device : Type 0 where
  pub mcu : Mcu
  pub io_byte : ℕ
  pub version : Version

abbrev pub mode_of : ℕ → Mode
mode_of zero = legacy
mode_of (suc zero) = ps2
mode_of (suc (suc n)) = epp

-- `(AVRLPT_REG)n` for a number that was checked to be at most 4.
abbrev pub reg_of : ℕ → Reg
reg_of zero = pdata
reg_of (suc zero) = pstat
reg_of (suc (suc zero)) = pcon
reg_of (suc (suc (suc zero))) = addstr
reg_of (suc (suc (suc (suc n)))) = datastr

module _ (board : Board) where
  -- The cases of the `switch`; each returns the bytes of the reply and the new state.
  abbrev on_set_mode : ℕ → Device → List ℕ × Device
  on_set_mode value d =
      let word = if ltb 2 value then 2 else value in
      ([], record d { mcu = (set_mode (mode_of (u8 word)) d.mcu).1 })

  abbrev on_set_reg : ℕ → ℕ → Device → List ℕ × Device
  on_set_reg value index d =
      if leb value 4
      then ([], record d { mcu = (set_reg board (reg_of (u8 value)) (u8 index) d.mcu).1 })
      else ([], d)

  abbrev on_get_reg : ℕ → Device → List ℕ × Device
  on_get_reg value d =
      if leb value 4
      then (let (byte, mcu') = get_reg board (reg_of (u8 value)) d.mcu in
          (byte ∷ [], record d { mcu = mcu'; io_byte = byte }))
      else (0 ∷ [], record d { io_byte = 0 })

  -- `usbFunctionSetup`: the reply, empty where it returns 0, and the new state.
  unfoldable pub function_setup : SetupPacket → Device → List ℕ × Device
  function_setup rq d =
      if rq.request_type % 2 ^ 7 == 0x40
      then if rq.request == get_ms_descriptor
        then (if rq.index == 4 then (ms_ext_compat_descriptor, d) else ([], d))
        else if rq.request == usblpt_get_version
        then (version_bytes d.version, d)
        else if rq.request == usblpt_set_mode
        then on_set_mode rq.value d
        else if rq.request == usblpt_set_reg
        then on_set_reg rq.value rq.index d
        else if rq.request == usblpt_get_reg
        then on_get_reg rq.value d
        else ([], d)
      else ([], d)

-- The registers and the static variables after a hardware reset.
abbrev pub reg8_zero : Reg8
reg8_zero = record {
  b0 = false;
  b1 = false;
  b2 = false;
  b3 = false;
  b4 = false;
  b5 = false;
  b6 = false;
  b7 = false;
}

abbrev pub reset_mcu : Mcu
reset_mcu = record {
  io = record {
    ddrb = reg8_zero;
    ddrc = reg8_zero;
    ddrd = reg8_zero;
    portb = reg8_zero;
    portc = reg8_zero;
    portd = reg8_zero;
  };
  reads = 0;
  active_mode = legacy;
  last_pcon = 0;
  last_pdata = 0;
  last_pstat = 0;
  last_addstr = 0;
  last_datastr = 0;
}

-- `main` up to its event loop, with the date and time of the build.
unfoldable pub main : Version → Device
main build =
    let started = (set_mode legacy reset_mcu).1 in
    record { mcu = (init started).1; io_byte = 0; version = record build { revision = 0 } }

-- The event loop: one setup packet after the other.
unfoldable pub serve : Board → List SetupPacket → Device → Device
serve board [] d = d
serve board (rq ∷ rqs) d = serve board rqs (function_setup board rq d).1
