-- ===== src/Usb/Setup.antt =====
-- What LptToUsbAdapter/UsbLptLib/UsbWrappers.c calls to find devices: the SetupAPI and the
-- configuration manager, and the requests to a hub.
use lpt_to_usb_adapter.Base.{ℕ, ◌+◌, ◌*◌, Bool, Option, List, get_or}

-- A call that asks for a size: whether it returned TRUE, whether the last error is
-- ERROR_INSUFFICIENT_BUFFER, and the size.
pub record SizeQuery : Type 0 where
  pub done : Bool
  pub insufficient : Bool
  pub required : ℕ

-- `USB_DESCRIPTOR_REQUEST`
pub record DescriptorRequest : Type 0 where
  pub connection_index : ℕ
  pub value : ℕ
  pub index : ℕ
  pub length : ℕ

-- The fields of `USB_DEVICE_DESCRIPTOR` that are used.
pub record DeviceDescriptor : Type 0 where
  pub bcd_device : ℕ
  pub id_product : ℕ
  pub id_vendor : ℕ
  pub i_manufacturer : ℕ
  pub i_serial_number : ℕ
  pub i_product : ℕ

-- The calls. A device is named by its index in the list of devices, its parent by an instance. A
-- device request gives the bytes that came back.
pub record SetupApi (W : Type 0) : Type 0 where
  pub get_class_devs : W → Bool × W
  pub destroy_device_info_list : W → W
  pub enum_device_info : ℕ → W → Bool × W
  pub location_size : ℕ → W → SizeQuery × W
  pub location : ℕ → ℕ → W → Option (List ℕ) × W
  pub get_parent : ℕ → W → Option ℕ × W
  pub get_device_id_size : ℕ → W → Option ℕ × W
  pub get_device_id : ℕ → ℕ → W → Option (List ℕ) × W
  pub enum_device_interfaces : ℕ → W → Bool × W
  pub detail_size : ℕ → W → SizeQuery × W
  pub detail : ℕ → ℕ → W → Option (List ℕ) × W
  pub get_descriptor : ℕ → DescriptorRequest → ℕ → W → Option (List ℕ) × W
  pub get_node_connection_information : ℕ → ℕ → W → Option DeviceDescriptor × W
  pub realloc : ℕ → W → Bool × W
  -- What `_stscanf_s` stores for `%4hu`.
  pub scan_decimal : List ℕ → Option ℕ

-- `sizeof(USB_DESCRIPTOR_REQUEST)`
abbrev pub request_size : ℕ
request_size = 12

-- The 16-bit number at a place of a buffer.
abbrev pub word_at : List ℕ → ℕ → ℕ
word_at buffer i = get_or buffer i 0 + 256 * get_or buffer (i + 1) 0
