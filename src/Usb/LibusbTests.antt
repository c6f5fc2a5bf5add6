-- ===== src/Usb/LibusbTests.antt =====
-- A concrete bus for LptToUsbAdapter/UsbLptLib/UsbWrappers.c on other systems than Windows.
use lpt_to_usb_adapter.Base.{true, false, some, none, [], ◌∷◌}
use lpt_to_usb_adapter.Usb.Api.{Api, Host}
use lpt_to_usb_adapter.Usb.Libusb.{Libusb}

abbrev host : Api (Unit {0})
host = record {
  malloc = λ n w. (true, w);
  heap_flag = λ w. false;
  stack_byte = λ w. 0;
  create_file = λ path w. (none, w);
  winusb_initialize = λ h w. (none, w);
  winusb_free = λ h w. w;
  close_handle = λ h w. w;
  control_out = λ h rq bytes w. (none, w);
  control_in = λ h rq n w. (none, w);
  write_pipe = λ h pipe bytes w. (none, w);
  read_pipe = λ h pipe n w. (none, w);
}

-- A bus with two devices, on which every call succeeds.
abbrev bus : Libusb (Unit {0})
bus = record {
  info_size = 40;
  init = λ w. (true, w);
  exit = λ w. w;
  get_device_list = λ w. (some (1 ∷ 2 ∷ []), w);
  free_device_list = λ unref w. w;
  get_device_descriptor =
      λ dev w. (some (record { id_vendor = 0x16c0; id_product = 0x05dc; bcd_device = 0x0300 }), w);
  open_usb_device = λ dev w. (some 5, w);
  get_descriptor_string = λ h n w. (4, w);
  close_usb_device = λ h w. w;
  print_device = λ i desc w. w;
  print_string = λ r w. w;
}

abbrev start : Host (Unit {0})
start = record {
  world = tt;
  allocated = 0;
  freed = 0;
  opened = 0;
  closed = 0;
  initialized = 0;
  released = 0;
}
