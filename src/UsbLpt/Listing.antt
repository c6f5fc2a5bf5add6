-- ===== src/UsbLpt/Listing.antt =====
-- The list of the adapters: `UsbLpt_GetListInternal`, `UsbLpt_GetList` and `UsbLpt_OpenAuto` of
-- LptToUsbAdapter/UsbLptLib/UsbLptLib.c.
use lpt_to_usb_adapter.Base.{
  ℕ, Bool, true, false, ◌&&◌, ◌||◌, Option, none, some, List, [], ◌∷◌, ◌++◌, length, get_or, take,
  drop, replicate, ltb, ◌==◌, if◌then◌else◌,
}
use lpt_to_usb_adapter.Usb.Api.{Api, Host, M, pure, ◌>>=◌, ◌>>◌, call}
use lpt_to_usb_adapter.Usb.Setup.{SetupApi}
use lpt_to_usb_adapter.Usb.Strings.{UsbString}
use lpt_to_usb_adapter.Usb.Enumeration.{
  UsbDeviceInfo, create_usb_devices_info_list, destroy_usb_devices_info_list,
}
use lpt_to_usb_adapter.UsbLpt.Commands.{UsbLpt, open_device, close}
use lpt_to_usb_adapter.UsbLpt.Dfu.{firmware_update}

-- `UsbLptDevice`
pub record UsbLptDevice : Type 0 where
  pub version : List ℕ
  pub serial : List ℕ
  pub location : List ℕ

-- `sizeof(device_this.location) / sizeof(*device_this.location)`
abbrev pub text_size : ℕ
text_size = 128

-- The characters before the zero that ends them; without one, all.
abbrev pub wide_string : List ℕ → List ℕ
wide_string [] = []
wide_string (c ∷ cs) = let rest = wide_string cs in if c == 0 then [] else c ∷ rest

-- `wcsncpy` to a buffer of that size.
abbrev pub copy_text : List ℕ → List ℕ
copy_text text = take text_size (wide_string text ++ replicate text_size 0)

-- `!wcscmp`
abbrev pub same_text : List ℕ → List ℕ → Bool
same_text [] [] = true
same_text [] (y ∷ ys) = false
same_text (x ∷ xs) [] = false
same_text (x ∷ xs) (y ∷ ys) = (x == y) && same_text xs ys

-- Whether the first string of a chain is the text; a chain that is NULL has none.
abbrev pub names : List UsbString → List ℕ → Bool
names [] text = false
names (str ∷ next) text = same_text (wide_string str.string) text

abbrev pub usblpt_vid : ℕ
usblpt_vid = 0x1209

abbrev pub usblpt_pid : ℕ
usblpt_pid = 0x4153

-- "a.sakharov"
abbrev pub author : List ℕ
author = b'a' ∷ b'.' ∷ b's' ∷ b'a' ∷ b'k' ∷ b'h' ∷ b'a' ∷ b'r' ∷ b'o' ∷ b'v' ∷ []

-- "Virtual EPP"
abbrev pub product : List ℕ
product = b'V' ∷ b'i' ∷ b'r' ∷ b't' ∷ b'u' ∷ b'a' ∷ b'l' ∷ b' ' ∷ b'E' ∷ b'P' ∷ b'P' ∷ []

-- "Virtual EPP DFU"
abbrev pub product_dfu : List ℕ
product_dfu = product ++ (b' ' ∷ b'D' ∷ b'F' ∷ b'U' ∷ [])

abbrev pub is_dfu : UsbDeviceInfo → Bool
is_dfu info = names info.product_name product_dfu

-- The tests that do not `continue`.
abbrev pub is_adapter : UsbDeviceInfo → Bool
is_adapter info =
    (info.vid == usblpt_vid)
    && (info.pid == usblpt_pid)
    && names info.manufacturer author
    && (names info.product_name product || is_dfu info)

abbrev pub serial_of : List UsbString → List ℕ → List ℕ
serial_of [] old = 0 ∷ drop 1 old
serial_of (str ∷ next) old = copy_text str.string

abbrev pub fill : UsbDeviceInfo → List ℕ → UsbLptDevice → UsbLptDevice
fill info identifier this = record this {
  location = copy_text identifier;
  serial = serial_of info.serial this.serial;
}

-- `device_this`, the devices so far, and `*dfu_happens`.
pub record Listing : Type 0 where
  pub device_this : UsbLptDevice
  pub devices : List UsbLptDevice
  pub dfu_happens : Bool

-- The image of USBLPT3R0_firmware.h, and fuel for its loading.
pub record Image : Type 0 where
  pub fuel : ℕ
  pub base : ℕ
  pub firmware : List ℕ
  pub sha512 : List ℕ
  pub block_size : ℕ

module _ {W : Type 0} (api : Api W) (setup : SetupApi W) (image : Image) where
  abbrev pub update : UsbLpt → M W (Option Bool)
  update temp =
      firmware_update api image.fuel temp image.base image.firmware image.sha512 image.block_size

  abbrev pub update_done : Listing → UsbLpt → Option Bool → M W (Option Listing)
  update_done l temp none = pure none
  update_done l temp (some done) = do
    closed ← close api temp
    pure (some (record l { dfu_happens = true }))

  abbrev pub keep_device : Listing → UsbLpt → M W (Option Listing)
  keep_device l temp = do
    closed ← close api temp
    pure (some (record l { devices = l.devices ++ l.device_this ∷ [] }))

  abbrev pub use_device : UsbDeviceInfo → Listing → Option UsbLpt → M W (Option Listing)
  use_device info l none = pure (some l)
  use_device info l (some temp) =
      let l' = record l { device_this = record l.device_this { version = temp.version } } in
      if is_dfu info then (update temp >>= update_done l' temp) else keep_device l' temp

  -- An adapter whose path is NULL stops the program.
  abbrev pub open_adapter : UsbDeviceInfo → Listing → Option (List ℕ) → M W (Option Listing)
  open_adapter info l none = pure none
  open_adapter info l (some identifier) = do
    let this = fill info identifier l.device_this
    temp ← open_device api (wide_string this.location)
    use_device info (record l { device_this = this }) temp

  abbrev pub round : UsbDeviceInfo → Listing → M W (Option Listing)
  round info l =
      if is_adapter info then open_adapter info l info.device_identifier else pure (some l)

  -- The loop; `none` if the program stops, or fuel runs out in an update.
  unfoldable pub rounds : ℕ → List UsbDeviceInfo → Listing → M W (Option Listing)
  rounds devices_max [] l s = (some l, s)
  rounds devices_max (info ∷ infos) l s =
      let (r, s') = round info l s in
      let rest : Option Listing × Host W = elim r [
        | none ↦ (none, s')
        | some l' ↦ rounds devices_max infos l' s'
      ] in
      if ltb (length l.devices) devices_max then rest else (some l, s)

  abbrev pub destroy : List UsbDeviceInfo → Option Listing → M W (Option Listing)
  destroy infos none = pure none
  destroy infos (some l) = do done ← destroy_usb_devices_info_list infos; pure (some l)

  abbrev pub list_of : ℕ → UsbLptDevice → Option (List UsbDeviceInfo) → M W (Option Listing)
  list_of devices_max this none =
      pure (some (record { device_this = this; devices = []; dfu_happens = false }))
  list_of devices_max this (some infos) =
      rounds devices_max infos (record { device_this = this; devices = []; dfu_happens = false })
      >>= destroy infos

  -- `UsbLpt_GetListInternal`, with the fuel of the enumeration, and what `device_this` holds first.
  unfoldable pub get_list_internal : ℕ → ℕ → UsbLptDevice → M W (Option Listing)
  get_list_internal fuel devices_max this = do
    infos ← create_usb_devices_info_list api setup fuel
    list_of devices_max this infos

  module _ (sleep : W → W) (choose : List UsbLptDevice → W → Option ℕ × W) where
    abbrev wait : M W (Unit {0})
    wait s = (tt, record s { world = sleep s.world })

    abbrev pub list_again : ℕ → ℕ → UsbLptDevice → Option Listing → M W (Option Listing)
    list_again fuel devices_max this none = pure none
    list_again fuel devices_max this (some l) =
        if l.dfu_happens then (wait >> get_list_internal fuel devices_max this) else pure (some l)

    -- `UsbLpt_GetList`
    unfoldable pub get_list : ℕ → ℕ → UsbLptDevice → M W (Option Listing)
    get_list fuel devices_max this =
        get_list_internal fuel devices_max this >>= list_again fuel devices_max this

    abbrev open_listed : UsbLptDevice → M W (Option (Option UsbLpt))
    open_listed device = do
      opened ← open_device api (wide_string device.location)
      pure (some opened)

    abbrev open_selected :
        UsbLptDevice → List UsbLptDevice → Option ℕ → M W (Option (Option UsbLpt))
    open_selected this devices none = pure (some none)
    open_selected this devices (some selected_device) =
        open_listed (get_or devices selected_device this)

    abbrev pub open_of : UsbLptDevice → List UsbLptDevice → M W (Option (Option UsbLpt))
    open_of this [] = pure (some none)
    open_of this (device ∷ []) = open_listed device
    open_of this (device ∷ next ∷ devices) =
        call (choose (device ∷ next ∷ devices)) >>= open_selected this (device ∷ next ∷ devices)

    abbrev pub open_first : UsbLptDevice → Option Listing → M W (Option (Option UsbLpt))
    open_first this none = pure none
    open_first this (some l) = open_of this l.devices

    -- `UsbLpt_OpenAuto`, with what the array of devices holds first; the selection is a window.
    unfoldable pub open_auto : ℕ → UsbLptDevice → M W (Option (Option UsbLpt))
    open_auto fuel this = get_list fuel 16 this >>= open_first this
