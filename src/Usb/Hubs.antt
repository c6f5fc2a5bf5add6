-- ===== src/Usb/Hubs.antt =====
-- From a device to the hub that it is connected to, in LptToUsbAdapter/UsbLptLib/UsbWrappers.c.
use lpt_to_usb_adapter.Base.{
  ℕ, zero, suc, ◌+◌, ◌*◌, ◌/◌, ◌%◌, not, ◌&&◌, Option, none, some, List, [], ◌∷◌, ◌++◌, length,
  get_or, take, drop, ltb, ◌==◌, if◌then◌else◌,
}
use lpt_to_usb_adapter.Usb.Api.{Api, M, pure, ◌>>=◌, ◌>>◌, call, free, alloc}
use lpt_to_usb_adapter.Usb.Device.{create_file}
use lpt_to_usb_adapter.Usb.Paths.{device_location_to_port_hub}
use lpt_to_usb_adapter.Usb.Setup.{SetupApi}

-- `GUID`, the last part as its eight bytes.
pub record Guid : Type 0 where
  pub data1 : ℕ
  pub data2 : ℕ
  pub data3 : ℕ
  pub data4 : List ℕ

-- `GUID_DEVINTERFACE_USB_HUB`
abbrev pub guid_usb_hub : Guid
guid_usb_hub = record {
  data1 = 0xf18a0e88;
  data2 = 0xc30c;
  data3 = 0x11d0;
  data4 = 0x88 ∷ 0x15 ∷ 0x00 ∷ 0xa0 ∷ 0xc9 ∷ 0x06 ∷ 0xbe ∷ 0xd8 ∷ [];
}

-- `%0nX` of a number of n digits.
abbrev upper_digit : ℕ → ℕ
upper_digit d = if ltb d 10 then 48 + d else 55 + d

abbrev pub hex_text : ℕ → ℕ → List ℕ
hex_text zero n = []
hex_text (suc k) n = hex_text k (n / 16) ++ upper_digit (n % 16) ∷ []

abbrev byte_text : Guid → ℕ → List ℕ
byte_text guid i = hex_text 2 (get_or guid.data4 i 0)

abbrev pub guid_text : Guid → List ℕ
guid_text g =
    hex_text 8 g.data1
    ++ (b'-'
        ∷ (hex_text 4 g.data2
            ++ (b'-'
                ∷ (hex_text 4 g.data3
                    ++ (b'-'
                        ∷ (byte_text g 0
                            ++ (byte_text g 1
                                ++ (b'-'
                                    ∷ (byte_text g 2
                                        ++ (byte_text g 3
                                            ++ (byte_text g 4
                                                ++ (byte_text g 5
                                                    ++ (byte_text g 6 ++ byte_text g 7)))))))))))))

-- `DeviceIdToDevicePathBufferLength`
unfoldable pub device_id_to_device_path_buffer_length : List ℕ → ℕ
device_id_to_device_path_buffer_length id = 4 + length id + 1 + 38 + 1

abbrev pub path_prefix : List ℕ
path_prefix = b'\\' ∷ b'\\' ∷ b'?' ∷ b'\\' ∷ []

-- A character of the path behind its prefix.
abbrev pub hashed : ℕ → ℕ
hashed c = if c == b'\\' then b'#' else c

abbrev pub hash_all : List ℕ → List ℕ
hash_all [] = []
hash_all (c ∷ cs) = hashed c ∷ hash_all cs

-- `DeviceIdToDevicePath`: the path, unless it does not fit with its zero character.
unfoldable pub device_id_to_device_path : List ℕ → ℕ → Guid → Option (List ℕ)
device_id_to_device_path id path_len guid =
    let text = path_prefix ++ (id ++ (b'#' ∷ b'{' ∷ (guid_text guid ++ b'}' ∷ []))) in
    if ltb (length text) path_len then some (take 4 text ++ hash_all (drop 4 text)) else none

module _ {W : Type 0} (api : Api W) (setup : SetupApi W) where
  -- `DeviceGetPortHub`: the numbers that were stored, after a return of true.
  abbrev located : Option (List ℕ) → M W (Option (Option ℕ × Option ℕ))
  located none = free >> pure none
  located (some path) = free >> pure (device_location_to_port_hub setup.scan_decimal path)

  abbrev read_location : ℕ → ℕ → M W (Option (Option ℕ × Option ℕ))
  read_location device size = do
    got ← alloc api size
    if got then (call (setup.location device size) >>= located) else pure none

  unfoldable pub device_get_port_hub : ℕ → M W (Option (Option ℕ × Option ℕ))
  device_get_port_hub device = do
    q ← call (setup.location_size device)
    if not q.done && not q.insufficient then pure none else read_location device q.required

  -- The handle of the hub by its path, and the path given back.
  abbrev open_hub : List ℕ → M W (Option ℕ)
  open_hub path = do handle ← create_file api path; free; pure handle

  -- The path of the hub; the identifier is given back, and the path too if it does not fit.
  abbrev hub_path : List ℕ → ℕ → M W (Option ℕ)
  hub_path id path_len = elim (device_id_to_device_path id path_len guid_usb_hub) [
    | none ↦ (free >> free) >> pure none
    | some path ↦ free >> open_hub path
  ]

  abbrev with_id : Option (List ℕ) → M W (Option ℕ)
  with_id none = free >> pure none
  with_id (some id) = do
    let path_len = device_id_to_device_path_buffer_length id
    got ← alloc api (path_len * 2)
    if got then hub_path id path_len else (free >> pure none)

  abbrev parent_id : ℕ → ℕ → M W (Option ℕ)
  parent_id parent devid_len = do
    got ← alloc api (2 * devid_len)
    if got then (call (setup.get_device_id parent devid_len) >>= with_id) else pure none

  abbrev parent_size : ℕ → M W (Option ℕ)
  parent_size parent = do
    size ← call (setup.get_device_id_size parent)
    elim size [ none ↦ pure none | some n ↦ parent_id parent (n + 1) ]

  -- `GetUsbDeviceHubHandle`: the handle, after a return of true.
  unfoldable pub get_usb_device_hub_handle : ℕ → M W (Option ℕ)
  get_usb_device_hub_handle device = do
    parent ← call (setup.get_parent device)
    elim parent [ none ↦ pure none | some p ↦ parent_size p ]
