-- ===== src/Link/Tests.antt =====
-- Concrete calls of the host's library, linked to the adapter.
use lpt_to_usb_adapter.Base.{◌≡◌, refl, true, false, some, none, [], take, replicate, arith}
use lpt_to_usb_adapter.Lpt.Pins.{pcon}
use lpt_to_usb_adapter.Lpt.Driver
use lpt_to_usb_adapter.Lpt.Tests.{responder}
use lpt_to_usb_adapter.Device.{Device, function_setup, main}
use lpt_to_usb_adapter.Device.Tests.{build}
use lpt_to_usb_adapter.Usb.Api.{Api, Host}
use lpt_to_usb_adapter.Usb.Device.{UsbHandle}
use lpt_to_usb_adapter.UsbLpt.Commands.{UsbLpt, set_port8, get_port8, open_device}
use lpt_to_usb_adapter.Link.{IsLinked, set_port8-set_reg, get_port8-get_reg, open_device-stale_flag}

-- A host whose only device is the adapter.
abbrev pub cable : Api Device
cable = record {
  malloc = λ n w. (true, w);
  heap_flag = λ w. false;
  stack_byte = λ w. 0xcc;
  create_file = λ path w. (some 7, w);
  winusb_initialize = λ h w. (some 8, w);
  winusb_free = λ h w. w;
  close_handle = λ h w. w;
  control_out = λ h rq bytes w. (some 0, (function_setup responder rq w).1);
  control_in = λ h rq n w.
      (some (take rq.length (function_setup responder rq w).0), (function_setup responder rq w).1);
  write_pipe = λ h pipe bytes w. (none, w);
  read_pipe = λ h pipe n w. (none, w);
}

abbrev pub adapter : Device → Device
adapter d = d

pub cable-IsLinked : IsLinked cable responder adapter
cable-IsLinked = record {
  out_sent = λ h rq w. refl;
  out_served = λ h rq w. refl;
  in_arrived = λ h rq n w. refl;
  in_served = λ h rq n w. refl;
  no_pipe = λ h pipe bytes w. refl;
}

abbrev pub plugged : Host Device
plugged = record {
  world = main build;
  allocated = 0;
  freed = 0;
  opened = 0;
  closed = 0;
  initialized = 0;
  released = 0;
}

abbrev handle : UsbHandle
handle = record { dev_handle = 7; dev_winusb_handle = 8 }

abbrev pub lpt : UsbLpt
lpt = record { usb_handles = handle; version = replicate 40 0; no_special_endpoint = true }

set_port8-set_reg_example :
    let (done, s') = set_port8 cable lpt 2 0x1f plugged in
    (done ≡ true)
    × (s'.world
        ≡ record (main build) { mcu = (Driver.set_reg responder pcon 0x1f (main build).mcu).1 })
set_port8-set_reg_example =
    set_port8-set_reg cable responder adapter cable-IsLinked lpt 2 0x1f plugged refl (omega arith)
      (omega arith)

get_port8-get_reg_example :
    let (byte, mcu') = Driver.get_reg responder pcon (main build).mcu in
    let (r, s') = get_port8 cable lpt 2 plugged in
    (r ≡ some byte) × (s'.world ≡ record (main build) { mcu = mcu'; io_byte = byte })
get_port8-get_reg_example =
    get_port8-get_reg cable responder adapter cable-IsLinked lpt 2 plugged refl (omega arith)

-- The block held zero, and the adapter does not open.
open_device-stale_flag_example : (open_device cable [] plugged).0 ≡ none
open_device-stale_flag_example =
    open_device-stale_flag cable responder adapter cable-IsLinked [] plugged handle (λ n w. refl)
      (λ w. refl) (λ w. refl) (unfold main in omega arith)
