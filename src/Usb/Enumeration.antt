-- ===== src/Usb/Enumeration.antt =====
-- The list of the USB devices, in LptToUsbAdapter/UsbLptLib/UsbWrappers.c.
use lpt_to_usb_adapter.Base.{
  ℕ, zero, suc, ◌+◌, ◌*◌, Bool, true, not, ◌&&◌, Option, none, some, List, [], ◌∷◌, ◌++◌, length,
  take, ◌==◌, if◌then◌else◌,
}
use lpt_to_usb_adapter.Usb.Api.{Api, M, pure, ◌>>=◌, ◌>>◌, call, peek, free, alloc}
use lpt_to_usb_adapter.Usb.Device.{close_handle}
use lpt_to_usb_adapter.Usb.Setup.{SetupApi, DeviceDescriptor}
use lpt_to_usb_adapter.Usb.Strings.{
  UsbString, get_string_descriptor, get_string_descriptors, free_usb_string,
}
use lpt_to_usb_adapter.Usb.Hubs.{device_get_port_hub, get_usb_device_hub_handle}

-- `UsbDeviceInfo`; a string that is NULL is an empty chain.
pub record UsbDeviceInfo : Type 0 where
  pub vid : ℕ
  pub pid : ℕ
  pub bcd_device : ℕ
  pub manufacturer : List UsbString
  pub product_name : List UsbString
  pub serial : List UsbString
  pub device_identifier : Option (List ℕ)

module _ {W : Type 0} (api : Api W) (setup : SetupApi W) where
  -- A string of the device in every language, if it has the string.
  abbrev pub strings_of : ℕ → ℕ → ℕ → List ℕ → M W (List UsbString)
  strings_of hub connection_index index languages =
      if index == 0
      then pure []
      else get_string_descriptors api setup hub connection_index index languages

  abbrev without_strings : DeviceDescriptor → UsbDeviceInfo
  without_strings d = record {
    vid = d.id_vendor;
    pid = d.id_product;
    bcd_device = d.bcd_device;
    manufacturer = [];
    product_name = [];
    serial = [];
    device_identifier = none;
  }

  abbrev pub gather_strings :
      ℕ → ℕ → DeviceDescriptor → Option UsbString → M W (Option UsbDeviceInfo)
  gather_strings hub connection_index d none = free >> pure (some (without_strings d))
  gather_strings hub connection_index d (some languages) = do
    let ids = take languages.length_chars languages.string
    manufacturer ← strings_of hub connection_index d.i_manufacturer ids
    serial ← strings_of hub connection_index d.i_serial_number ids
    product_name ← strings_of hub connection_index d.i_product ids
    free_usb_string (languages ∷ [])
    free
    pure (
        some (record (without_strings d) {
          manufacturer = manufacturer;
          product_name = product_name;
          serial = serial;
        }))

  abbrev pub gather_connected : ℕ → ℕ → Option DeviceDescriptor → M W (Option UsbDeviceInfo)
  gather_connected hub connection_index none = free >> pure none
  gather_connected hub connection_index (some d) = do
    languages ← get_string_descriptor api setup hub connection_index 0 0
    gather_strings hub connection_index d languages

  -- `GatherUsbDeviceInfo`: the information, after a return of true.
  unfoldable pub gather_usb_device_info : ℕ → ℕ → M W (Option UsbDeviceInfo)
  gather_usb_device_info hub connection_index = do
    got ← alloc api (35 + 11 * 30)
    if got
        then (call (setup.get_node_connection_information hub connection_index)
            >>= gather_connected hub connection_index)
        else pure none

  -- `SetupDiGetDeviceInterfaceDetailAlloc`: the device's path, in a block that is held on.
  abbrev keep_detail : Option (List ℕ) → M W (Option (List ℕ))
  keep_detail none = free >> pure none
  keep_detail (some path) = pure (some path)

  abbrev read_detail : ℕ → ℕ → M W (Option (List ℕ))
  read_detail device size = do
    got ← alloc api size
    if got then (call (setup.detail device size) >>= keep_detail) else pure none

  unfoldable pub interface_detail_alloc : ℕ → M W (Option (List ℕ))
  interface_detail_alloc device = do
    q ← call (setup.detail_size device)
    if not q.done && not q.insufficient then pure none else read_detail device q.required

  -- `realloc` of the list to one more element; only the first one adds a block.
  abbrev pub grow : ℕ → M W Bool
  grow n s =
      let (got, w) = setup.realloc n s.world in
      let fresh = got && (n == 1) in
      (got, record s { world = w; allocated = if fresh then s.allocated + 1 else s.allocated })

  -- `_tcsdup`
  abbrev duplicate : List ℕ → M W (Option (List ℕ))
  duplicate path = do
    got ← alloc api (2 * (length path + 1))
    pure (if got then some path else none)

  abbrev pub append_info : List UsbDeviceInfo → UsbDeviceInfo → List ℕ → M W (List UsbDeviceInfo)
  append_info devices info path = do
    identifier ← duplicate path
    pure (devices ++ record info { device_identifier = identifier } ∷ [])

  -- An information is added, or dropped if there is no room.
  abbrev pub add_info :
      List UsbDeviceInfo → List ℕ → Option UsbDeviceInfo → M W (List UsbDeviceInfo)
  add_info devices path none = pure devices
  add_info devices path (some info) = do
    grown ← grow (length devices + 1)
    if grown then append_info devices info path else pure devices

  abbrev pub gather : ℕ → ℕ → List UsbDeviceInfo → Option (List ℕ) → M W (List UsbDeviceInfo)
  gather hub port devices none = pure devices
  gather hub port devices (some path) = do
    info ← gather_usb_device_info hub port
    devices' ← add_info devices path info
    free
    close_handle api hub
    pure devices'

  -- With the hub's handle: the steps that `continue` leaves without closing it.
  abbrev pub with_hub : ℕ → ℕ → List UsbDeviceInfo → ℕ → M W (List UsbDeviceInfo)
  with_hub device port devices hub = do
    found ← call (setup.enum_device_interfaces device)
    if found then (interface_detail_alloc device >>= gather hub port devices) else pure devices

  -- A number that was not stored is what the stack holds.
  abbrev pub stored : ℕ → Option ℕ → ℕ
  stored garbage none = garbage
  stored garbage (some n) = n

  abbrev pub at_hub : ℕ → ℕ → List UsbDeviceInfo → Option ℕ → M W (List UsbDeviceInfo)
  at_hub device port devices none = pure devices
  at_hub device port devices (some hub) = with_hub device port devices hub

  abbrev pub with_port :
      ℕ → List UsbDeviceInfo → Option (Option ℕ × Option ℕ) → M W (List UsbDeviceInfo)
  with_port device devices none = pure devices
  with_port device devices (some (port, _)) = do
    garbage ← peek api.stack_byte
    hub ← get_usb_device_hub_handle api setup device
    at_hub device (stored garbage port) devices hub

  -- One round of the loop of `USBWRAP_CreateUsbDevicesInfoList`.
  unfoldable pub visit : ℕ → List UsbDeviceInfo → M W (List UsbDeviceInfo)
  visit device devices = device_get_port_hub api setup device >>= with_port device devices

  -- The loop from a device on; `none` if the fuel runs out.
  unfoldable pub visit_all : ℕ → ℕ → List UsbDeviceInfo → M W (Option (List UsbDeviceInfo))
  visit_all zero device devices s = (none, s)
  visit_all (suc fuel) device devices s =
      let (more, w) = setup.enum_device_info device s.world in
      let s₁ = record s { world = w } in
      let (devices', s₂) = visit device devices s₁ in
      let rest = visit_all fuel (device + 1) devices' s₂ in
      if more then rest else (some devices, s₁)

  abbrev destroy_list : M W (Unit {0})
  destroy_list s = (tt, record s { world = setup.destroy_device_info_list s.world })

  -- `USBWRAP_CreateUsbDevicesInfoList`: the list, after a return of true; `none` also if the fuel
  -- runs out.
  unfoldable pub create_usb_devices_info_list : ℕ → M W (Option (List UsbDeviceInfo))
  create_usb_devices_info_list fuel = do
    opened ← call setup.get_class_devs
    if opened then (do devices ← visit_all fuel 0 []; destroy_list; pure devices) else pure none

-- `free` of an identifier that may be NULL.
abbrev free_identifier : {W : Type 0} → Option (List ℕ) → M W (Unit {0})
free_identifier none = pure tt
free_identifier (some path) = free

-- `USBWRAP_DestroyUsbDevicesInfoList`
unfoldable pub destroy_infos : {W : Type 0} → List UsbDeviceInfo → M W (Unit {0})
destroy_infos [] s = (tt, s)
destroy_infos (info ∷ infos) s =
    let (_, s₁) = free_usb_string info.manufacturer s in
    let (_, s₂) = free_usb_string info.product_name s₁ in
    let (_, s₃) = free_usb_string info.serial s₂ in
    let (_, s₄) = free_identifier info.device_identifier s₃ in destroy_infos infos s₄

unfoldable pub destroy_usb_devices_info_list : {W : Type 0} → List UsbDeviceInfo → M W Bool
destroy_usb_devices_info_list infos = do
  destroy_infos infos
  elim infos [ [] ↦ pure tt | _ ∷ _ ↦ free ]
  pure true
