-- ===== src/Usb/Tests.antt =====
-- Concrete runs of LptToUsbAdapter/UsbLptLib/UsbWrappers.c.
use lpt_to_usb_adapter.Base.{
  ℕ, ◌+◌, ◌-◌, ◌*◌, ◌/◌, ◌%◌, ◌^◌, ◌<◌, ◌≡◌, ap, Bool, false, Option, some, none, List, [], ◌∷◌,
  arith, ltb, if◌then◌else◌,
}
use lpt_to_usb_adapter.Usb.Api.{Api, Host}
use lpt_to_usb_adapter.Usb.Device.{UsbHandle, open_device_by_path}
use lpt_to_usb_adapter.Usb.Paths.{device_path_to_vid_pid}
use lpt_to_usb_adapter.Usb.Parsing.{
  Reads, hex_digit, hex4, device_path, device_path_to_vid_pid-device_path,
}
use lpt_to_usb_adapter.Usb.Leaks.{Balanced, open_device_by_path-Balanced}

-- A host on which every call works, or memory is out; its world says which.
abbrev host : Api Bool
host = record {
  malloc = λ n w. (w, w);
  heap_flag = λ w. false;
  stack_byte = λ w. 0;
  create_file = λ path w. (some 7, w);
  winusb_initialize = λ h w. (some 8, w);
  winusb_free = λ h w. w;
  close_handle = λ h w. w;
  control_out = λ h rq bytes w. (some 0, w);
  control_in = λ h rq n w. (some [], w);
  write_pipe = λ h pipe bytes w. (none, w);
  read_pipe = λ h pipe n w. (none, w);
}

abbrev fresh : Bool → Host Bool
fresh w = record {
  world = w;
  allocated = 0;
  freed = 0;
  opened = 0;
  closed = 0;
  initialized = 0;
  released = 0;
}

abbrev handle : UsbHandle
handle = record { dev_handle = 7; dev_winusb_handle = 8 }

-- Without memory for the handle both handles are given back.
open_device_by_path-Balanced_example :
    Balanced 0 0 0 (fresh false) (open_device_by_path host [] (fresh false)).1
unfolding open_device_by_path
open_device_by_path-Balanced_example = open_device_by_path-Balanced host [] (fresh false)

-- A scanner of four digits of a base.
abbrev digit : ℕ → ℕ
digit c = if ltb c 58 then c - 48 else c - 87

abbrev scan4 : ℕ → List ℕ → Option ℕ
scan4 base (a ∷ b ∷ c ∷ d ∷ rest) =
    some (base * (base * (base * digit a + digit b) + digit c) + digit d)
scan4 base _ = none

digit-hex_digit : (d : ℕ) → d < 16 → digit (hex_digit d) ≡ d
digit-hex_digit d h = ground arith

digit-decimal : (d : ℕ) → d < 10 → digit (48 + d) ≡ d
digit-decimal d h = ground arith

scan_hex-Reads : Reads (scan4 16) hex4 (2 ^ 16)
scan_hex-Reads n rest h =
    rw
      (
        digit-hex_digit (n / 4096 % 16) (omega arith),
        digit-hex_digit (n / 256 % 16) (omega arith),
        digit-hex_digit (n / 16 % 16) (omega arith),
        digit-hex_digit (n % 16) (omega arith),
      )
      (ap some (omega arith))

abbrev usb : List ℕ
usb = b'u' ∷ b's' ∷ b'b' ∷ b'#' ∷ []

device_path_to_vid_pid-device_path_example :
    device_path_to_vid_pid (scan4 16) (device_path usb 0x1209 0x4153 [])
    ≡ some (some 0x1209, some 0x4153)
device_path_to_vid_pid-device_path_example =
    device_path_to_vid_pid-device_path (scan4 16) usb [] 0x1209 0x4153 scan_hex-Reads (ground arith)
      (ground arith) (omega arith) (omega arith)
