-- ===== src/Device/Requests.antt =====
-- What the requests of Firmware/AVRUSBLPT/main.c do to the port, and what they never do.
use lpt_to_usb_adapter.Base.{
  ℕ, zero, suc, ◌⊎◌, u8, ltb, if◌then◌else◌, ◌%◌, ◌^◌, ◌<◌, ◌≤◌, ◌≡◌, ◌≢◌, ◌∙◌, refl, arith, List,
  [], ◌∷◌, length,
}
use lpt_to_usb_adapter.Lpt.Pins.{legacy, Board}
use lpt_to_usb_adapter.Lpt.Driver.{set_mode, set_reg, get_reg}
use lpt_to_usb_adapter.Lpt.Invariant.{
  IsValid, set_mode-IsStored, set_mode-IsValid, init-IsValid, set_reg-IsValid, get_reg-IsValid,
}
use lpt_to_usb_adapter.Device.{
  mode_of, reg_of, usblpt_set_reg, usblpt_get_reg, usblpt_set_mode, SetupPacket, Device, Version,
  reset_mcu, function_setup, main, serve,
}

main-IsValid : (build : Version) → IsValid (main build).mcu
unfolding main
main-IsValid build = init-IsValid _ (set_mode-IsStored legacy reset_mcu (omega arith))

-- A setup packet by its fields.
abbrev pub packet : ℕ → ℕ → ℕ → ℕ → ℕ → SetupPacket
packet request_type request value index length = record {
  request_type = request_type;
  request = request;
  value = value;
  index = index;
  length = length;
}

module _ (board : Board) where
  -- Every setup packet, of whatever kind, keeps the invariant of the port, and leaves the version.
  function_setup-IsValid :
      (rq : SetupPacket) (d : Device) → IsValid d.mcu → IsValid (function_setup board rq d).1.mcu
  unfolding function_setup
  function_setup-IsValid rq d h = ground (
    arith,
    set_mode-IsValid (mode_of (u8 (if ltb 2 rq.value then 2 else rq.value))) d.mcu h,
    set_reg-IsValid board (reg_of (u8 rq.value)) (u8 rq.index) d.mcu (omega arith) h,
    get_reg-IsValid board (reg_of (u8 rq.value)) d.mcu h,
  )

  function_setup-version :
      (rq : SetupPacket) (d : Device) → (function_setup board rq d).1.version ≡ d.version
  unfolding function_setup
  function_setup-version rq d = ground arith

  -- Each request as one packet of the host, with its arguments in range.
  pub function_setup-set_reg :
      (reg byte : ℕ) (d : Device)
      → reg ≤ 4
      → byte < 256
      → function_setup board (packet 0x40 usblpt_set_reg reg byte 0) d
        ≡ ([], record d { mcu = (set_reg board (reg_of reg) byte d.mcu).1 })
  unfolding function_setup
  function_setup-set_reg reg byte d fits small = ground arith

  pub function_setup-get_reg :
      (reg : ℕ) (d : Device)
      → reg ≤ 4
      → let (byte, mcu') = get_reg board (reg_of reg) d.mcu in
        function_setup board (packet 0xc0 usblpt_get_reg reg 0 1) d
        ≡ (byte ∷ [], record d { mcu = mcu'; io_byte = byte })
  unfolding function_setup
  function_setup-get_reg reg d fits = ground arith

  pub function_setup-set_mode :
      (mode : ℕ) (d : Device)
      → function_setup board (packet 0x40 usblpt_set_mode mode 0 0) d
        ≡ ([], record d { mcu = (set_mode (mode_of mode) d.mcu).1 })
  unfolding function_setup
  function_setup-set_mode zero d = refl
  function_setup-set_mode (suc zero) d = refl
  function_setup-set_mode (suc (suc mode)) d =
      let e : u8 (if ltb 2 (suc (suc mode)) then 2 else suc (suc mode)) ≡ 2 = ground arith in rw e

  -- A packet that is not a vendor request, or that sets a register above 4, is answered without
  -- data and leaves the adapter as it is.
  pub function_setup-ignored :
      (rq : SetupPacket) (d : Device)
      → (rq.request_type % 2 ^ 7 ≢ 0x40) ⊎ ((rq.request ≡ usblpt_set_reg) × (4 < rq.value))
      → function_setup board rq d ≡ ([], d)
  unfolding function_setup
  function_setup-ignored rq d h = ground arith

module _ (board : Board) (build : Version) where
  abbrev Served : Device → Type 0
  Served d = IsValid d.mcu × (d.version ≡ record build { revision = 0 })

  serve-Served : (rqs : List SetupPacket) (d : Device) → Served d → Served (serve board rqs d)
  unfolding serve
  serve-Served [] d h = h
  serve-Served (rq ∷ rqs) d (valid, same) =
      serve-Served rqs (function_setup board rq d).1
        (function_setup-IsValid board rq d valid, function_setup-version board rq d ∙ same)

  -- Whatever packets the adapter is sent after it started, and whatever the hardware around it
  -- does, the port stays wired (control lines outputs, status lines inputs, data lines all of one
  -- direction), the stored registers stay in range and `DATASTR` stays unwritten, and the version
  -- stays that of the build.
  pub serve-IsValid :
      (rqs : List SetupPacket)
      → let d = serve board rqs (main build) in
        IsValid d.mcu × (d.version ≡ record build { revision = 0 })
  serve-IsValid rqs = serve-Served rqs (main build) (main-IsValid build, unfold main in refl)
