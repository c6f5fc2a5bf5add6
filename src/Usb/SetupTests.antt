-- ===== src/Usb/SetupTests.antt =====
-- Concrete runs of the enumeration of LptToUsbAdapter/UsbLptLib/UsbWrappers.c.
use lpt_to_usb_adapter.Base.{
  ℕ, ◌*◌, ◌-◌, ◌≡◌, refl, true, false, none, some, List, [], ◌∷◌, ◌++◌, length, replicate, arith,
  ltb, if◌then◌else◌,
}
use lpt_to_usb_adapter.Usb.Api.{Api, Host}
use lpt_to_usb_adapter.Usb.Setup.{SetupApi, request_size}
use lpt_to_usb_adapter.Usb.Strings.{UsbString, get_string_descriptor, get_string_descriptors}
use lpt_to_usb_adapter.Usb.Config.{get_config_descriptor}
use lpt_to_usb_adapter.Usb.Hubs.{
  guid_usb_hub, device_id_to_device_path, device_id_to_device_path_buffer_length,
}
use lpt_to_usb_adapter.Usb.Parsing.{location}
use lpt_to_usb_adapter.Usb.Leaks.{Balanced}
use lpt_to_usb_adapter.Usb.Blocks.{count, ends}
use lpt_to_usb_adapter.Usb.Chains.{retrieved, get_string_descriptors-ends}
use lpt_to_usb_adapter.Usb.Descriptors.{string_reply, get_string_descriptor-reads}
use lpt_to_usb_adapter.Usb.Enumeration.{create_usb_devices_info_list}
use lpt_to_usb_adapter.Usb.Files.{LeavesOpen}
use lpt_to_usb_adapter.Usb.Handles.{all_left_open, create_usb_devices_info_list-left_open}

-- A host with memory, whose files open.
abbrev host : Api (Unit {0})
host = record {
  malloc = λ n w. (true, w);
  heap_flag = λ w. false;
  stack_byte = λ w. 0;
  create_file = λ path w. (some 7, w);
  winusb_initialize = λ h w. (some 8, w);
  winusb_free = λ h w. w;
  close_handle = λ h w. w;
  control_out = λ h rq bytes w. (some 0, w);
  control_in = λ h rq n w. (some [], w);
  write_pipe = λ h pipe bytes w. (none, w);
  read_pipe = λ h pipe n w. (none, w);
}

abbrev start : Host (Unit {0})
start = record {
  world = tt;
  allocated = 0;
  freed = 0;
  opened = 0;
  closed = 0;
  initialized = 0;
  released = 0;
}

abbrev request_header : List ℕ
request_header = replicate request_size 0

-- A configuration of 10 bytes.

abbrev config_reply : ℕ → List ℕ
config_reply n = request_header ++ (9 ∷ 2 ∷ 10 ∷ 0 ∷ replicate (n - 16) 0)

-- Two devices of port 1; the second has no interface.
abbrev bus : SetupApi (Unit {0})
bus = record {
  get_class_devs = λ w. (true, w);
  destroy_device_info_list = λ w. w;
  enum_device_info = λ i w. (ltb i 2, w);
  location_size = λ i w. (record { done = false; insufficient = true; required = 40 }, w);
  location = λ i n w. (some (location [] 1 3 []), w);
  get_parent = λ i w. (some 1, w);
  get_device_id_size = λ p w. (some 5, w);
  get_device_id = λ p n w. (some (b'U' ∷ b'S' ∷ b'B' ∷ b'\\' ∷ b'1' ∷ []), w);
  enum_device_interfaces = λ i w. (ltb i 1, w);
  detail_size = λ i w. (record { done = false; insufficient = true; required = 40 }, w);
  detail = λ i n w. (some (b'd' ∷ []), w);
  get_descriptor = λ h rq n w. (
    some (if ltb rq.value 768 then config_reply n else string_reply request_header (76 ∷ [])),
    w,
  );
  get_node_connection_information = λ h i w. (
    some (record {
      bcd_device = 1;
      id_product = 0x4153;
      id_vendor = 0x1209;
      i_manufacturer = 1;
      i_serial_number = 0;
      i_product = 2;
    }),
    w,
  );
  realloc = λ n w. (true, w);
  scan_decimal = λ cs. some 1;
}

get_string_descriptor-reads_example : get_string_descriptor host bus 7 1 2 0x0409 start ≡ (
  some (record { lang = 0x0409; length_chars = 1; string = 76 ∷ 0 ∷ [] }),
  record start { allocated = 2 },
)
get_string_descriptor-reads_example =
    get_string_descriptor-reads request_header (76 ∷ []) refl (omega arith) host bus 7 1 2 0x0409
      start tt (λ n w. refl) refl

-- Three languages: of the three strings, two are in the chain.
get_string_descriptors-ends_example :
    let (strings, s') =
      get_string_descriptors host bus 7 1 2 (0x0409 ∷ 0x0407 ∷ 0x0419 ∷ []) start in
    (found : List UsbString) × (found
      ≡ (retrieved host bus 7 1 2 (0x0409 ∷ 0x0407 ∷ 0x0419 ∷ []) start).0)
    × (strings ≡ ends found)
    × Balanced (2 * length found) 0 0 start s'
get_string_descriptors-ends_example =
    get_string_descriptors-ends host bus 7 1 2 (0x0409 ∷ 0x0407 ∷ 0x0419 ∷ []) start

get_config_descriptor_test : (get_config_descriptor host bus 7 1 0 start).0 ≡ some (config_reply 22)
unfolding get_config_descriptor
get_config_descriptor_test = refl

-- One handle is left open, that of the device without an interface.
create_usb_devices_info_list-left_open_example :
    (count (create_usb_devices_info_list host bus 3 start).0 ≡ 1)
    × LeavesOpen
        (all_left_open host bus 3 0 [] start)
        start
        (create_usb_devices_info_list host bus 3 start).1
create_usb_devices_info_list-left_open_example =
    create_usb_devices_info_list-left_open host bus 2 3 start (λ w. refl) (omega arith)

all_left_open_test : all_left_open host bus 3 0 [] start ≡ 1
unfolding all_left_open lpt_to_usb_adapter.Usb.Handles.left_open
    lpt_to_usb_adapter.Usb.Hubs.device_get_port_hub
    lpt_to_usb_adapter.Usb.Paths.device_location_to_port_hub lpt_to_usb_adapter.Usb.Paths.find
    lpt_to_usb_adapter.Usb.Hubs.get_usb_device_hub_handle device_id_to_device_path
    device_id_to_device_path_buffer_length lpt_to_usb_adapter.Usb.Enumeration.interface_detail_alloc
all_left_open_test = refl
