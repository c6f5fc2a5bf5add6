-- ===== src/UsbLpt/ListingTests.antt =====
-- Concrete runs of the listing of adapters of LptToUsbAdapter/UsbLptLib/UsbLptLib.c.
use lpt_to_usb_adapter.Base.{
  ℕ, ◌+◌, ◌≤◌, ◌≡◌, refl, true, false, some, List, [], ◌∷◌, ◌++◌, length, replicate, arith, ltb,
  ◌==◌, if◌then◌else◌,
}
use lpt_to_usb_adapter.Usb.Api.{Api, Host}
use lpt_to_usb_adapter.Usb.Setup.{SetupApi, DescriptorRequest, request_size}
use lpt_to_usb_adapter.Usb.Strings.{UsbString}
use lpt_to_usb_adapter.Usb.Descriptors.{string_reply}
use lpt_to_usb_adapter.Usb.Parsing.{location}
use lpt_to_usb_adapter.Usb.Enumeration.{UsbDeviceInfo, create_usb_devices_info_list}
use lpt_to_usb_adapter.UsbLpt.Listing.{
  UsbLptDevice, Listing, Image, author, product, text_size, get_list_internal,
}
use lpt_to_usb_adapter.UsbLpt.Picking.{Picks}
use lpt_to_usb_adapter.UsbLpt.Adapters.{get_list_internal-Picks}

-- A host whose devices tell the second version.
abbrev host : Api (Unit {0})
host = record {
  malloc = λ n w. (true, w);
  heap_flag = λ w. false;
  stack_byte = λ w. 0;
  create_file = λ path w. (some 7, w);
  winusb_initialize = λ h w. (some 8, w);
  winusb_free = λ h w. w;
  close_handle = λ h w. w;
  control_out = λ h rq bytes w. (some 0, w);
  control_in = λ h rq n w. (some (replicate n 2), w);
  write_pipe = λ h pipe bytes w. (some (length bytes), w);
  read_pipe = λ h pipe n w. (some (replicate n 2), w);
}

abbrev start : Host (Unit {0})
start = record {
  world = tt;
  allocated = 0;
  freed = 0;
  opened = 0;
  closed = 0;
  initialized = 0;
  released = 0;
}

-- The language, the names of the author and of the product, by their indices.
abbrev text : DescriptorRequest → List ℕ
text rq = if rq.value == 768 then 0x0409 ∷ [] else (if rq.value == 769 then author else product)

-- Two adapters.
abbrev bus : SetupApi (Unit {0})
bus = record {
  get_class_devs = λ w. (true, w);
  destroy_device_info_list = λ w. w;
  enum_device_info = λ i w. (ltb i 2, w);
  location_size = λ i w. (record { done = false; insufficient = true; required = 40 }, w);
  location = λ i n w. (some (location [] 1 3 []), w);
  get_parent = λ i w. (some (1 + i), w);
  get_device_id_size = λ p w. (some 5, w);
  get_device_id = λ p n w. (some (b'U' ∷ b'S' ∷ b'B' ∷ b'\\' ∷ p ∷ []), w);
  enum_device_interfaces = λ i w. (true, w);
  detail_size = λ i w. (record { done = false; insufficient = true; required = 40 }, w);
  detail = λ i n w. (some (b'd' ∷ (48 + i) ∷ []), w);
  get_descriptor = λ h rq n w. (some (string_reply (replicate request_size 0) (text rq)), w);
  get_node_connection_information = λ h i w. (
    some (record {
      bcd_device = 1;
      id_product = 0x4153;
      id_vendor = 0x1209;
      i_manufacturer = 1;
      i_serial_number = 0;
      i_product = 2;
    }),
    w,
  );
  realloc = λ n w. (true, w);
  scan_decimal = λ cs. some 1;
}

abbrev english : List ℕ → List UsbString
english cs = record { lang = 0x0409; length_chars = length cs; string = cs ++ 0 ∷ [] } ∷ []

abbrev adapter : ℕ → UsbDeviceInfo
adapter i = record {
  vid = 0x1209;
  pid = 0x4153;
  bcd_device = 1;
  manufacturer = english author;
  product_name = english product;
  serial = [];
  device_identifier = some (b'd' ∷ (48 + i) ∷ []);
}

abbrev image : Image
image = record { fuel = 3; base = 0x8400; firmware = 1 ∷ 2 ∷ []; sha512 = []; block_size = 60 }

abbrev unset : UsbLptDevice
unset = record { version = []; serial = replicate text_size 0; location = [] }

enumerates : (create_usb_devices_info_list host bus 3 start).0 ≡ some (adapter 0 ∷ adapter 1 ∷ [])
unfolding create_usb_devices_info_list lpt_to_usb_adapter.Usb.Enumeration.visit_all
    lpt_to_usb_adapter.Usb.Enumeration.visit lpt_to_usb_adapter.Usb.Hubs.device_get_port_hub
    lpt_to_usb_adapter.Usb.Paths.device_location_to_port_hub lpt_to_usb_adapter.Usb.Paths.find
    lpt_to_usb_adapter.Usb.Hubs.get_usb_device_hub_handle
    lpt_to_usb_adapter.Usb.Hubs.device_id_to_device_path
    lpt_to_usb_adapter.Usb.Hubs.device_id_to_device_path_buffer_length
    lpt_to_usb_adapter.Usb.Enumeration.interface_detail_alloc
    lpt_to_usb_adapter.Usb.Enumeration.gather_usb_device_info
    lpt_to_usb_adapter.Usb.Strings.get_string_descriptor
    lpt_to_usb_adapter.Usb.Strings.get_string_descriptors
    lpt_to_usb_adapter.Usb.Strings.link_strings
enumerates = refl

-- Room for one of them.
get_list_internal-Picks_example :
    (l : Listing) × ((get_list_internal host bus image 3 1 unset start).0 ≡ some l)
    × (length l.devices ≤ 1)
    × Picks host 1 (adapter 0 ∷ adapter 1 ∷ []) l.devices
get_list_internal-Picks_example =
    get_list_internal-Picks host bus image
      (record { some_bytes = omega arith; fits = omega arith; enough = omega arith }) 3 1 unset
      (adapter 0 ∷ adapter 1 ∷ []) start enumerates (refl, (refl, tt))
