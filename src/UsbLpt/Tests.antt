-- ===== src/UsbLpt/Tests.antt =====
-- Concrete runs of LptToUsbAdapter/UsbLptLib/UsbLptLib.c.
use lpt_to_usb_adapter.Base.{
  ℕ, ◌≡◌, ◌++◌, refl, true, false, some, none, List, [], ◌∷◌, length, take, replicate, le32, arith,
}
use lpt_to_usb_adapter.Usb.Api.{Api, Host}
use lpt_to_usb_adapter.UsbLpt.Command
use lpt_to_usb_adapter.UsbLpt.Commands.{UsbLpt}
use lpt_to_usb_adapter.UsbLpt.Dfu.{load_firmware}
use lpt_to_usb_adapter.UsbLpt.Blocks.{Loads}
use lpt_to_usb_adapter.UsbLpt.Update.{IsAccepting, load_firmware-Loads}

-- A boot loader that accepts every command and keeps it.
abbrev boot_loader : Api (List (List ℕ))
boot_loader = record {
  malloc = λ n w. (true, w);
  heap_flag = λ w. false;
  stack_byte = λ w. 0xcc;
  create_file = λ path w. (some 7, w);
  winusb_initialize = λ h w. (some 8, w);
  winusb_free = λ h w. w;
  close_handle = λ h w. w;
  control_out = λ h rq bytes w. (none, w);
  control_in = λ h rq n w. (none, w);
  write_pipe = λ h pipe bytes w. (some (length bytes), w ++ bytes ∷ []);
  read_pipe = λ h pipe n w. (some (0 ∷ []), w);
}

abbrev sent : List (List ℕ) → List (List ℕ)
sent w = w

boot_loader-IsAccepting : IsAccepting boot_loader sent
boot_loader-IsAccepting = record {
  malloc_ok = λ n w. refl;
  malloc_log = λ n w. refl;
  write_ok = λ h bytes w. refl;
  write_log = λ h bytes w. refl;
  read_ok = λ h n w. refl;
  read_log = λ h n w. refl;
}

abbrev start : Host (List (List ℕ))
start = record {
  world = [];
  allocated = 0;
  freed = 0;
  opened = 0;
  closed = 0;
  initialized = 0;
  released = 0;
}

abbrev device : UsbLpt
device = record {
  usb_handles = record { dev_handle = 7; dev_winusb_handle = 8 };
  version = 2 ∷ replicate 39 0;
  no_special_endpoint = false;
}

-- Ten bytes in blocks of four.
abbrev image : List ℕ
image = 10 ∷ 11 ∷ 12 ∷ 13 ∷ 14 ∷ 15 ∷ 16 ∷ 17 ∷ 18 ∷ 19 ∷ []

load_firmware-Loads_example :
    let (r, s') = load_firmware boot_loader 11 device 0x8400 image (replicate 64 0) 4 start in
    (cmds : List (List ℕ)) × (r ≡ some true)
    × (s'.world
        ≡ (Command.dfu_erase ∷ [])
          ∷ (cmds ++ (Command.dfu_finalize ∷ (le32 10 ++ take 64 (replicate 64 0))) ∷ []))
    × Loads 4 0x8400 image cmds
load_firmware-Loads_example =
    load_firmware-Loads boot_loader sent boot_loader-IsAccepting 11 device 0x8400 image
      (replicate 64 0) 4 start (omega arith) (omega arith) (omega arith)
