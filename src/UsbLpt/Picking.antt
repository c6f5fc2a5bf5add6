-- ===== src/UsbLpt/Picking.antt =====
-- What the list that `UsbLpt_GetListInternal` of LptToUsbAdapter/UsbLptLib/UsbLptLib.c makes is of
-- the enumerated devices, without the tests and the copies that it is made by.
use lpt_to_usb_adapter.Base.{ℕ, zero, suc, ◌≡◌, ◌⊎◌, Option, none, some, List, [], ◌∷◌}
use lpt_to_usb_adapter.Usb.Api.{Api, Host}
use lpt_to_usb_adapter.Usb.Strings.{UsbString}
use lpt_to_usb_adapter.Usb.Enumeration.{UsbDeviceInfo}
use lpt_to_usb_adapter.UsbLpt.Commands.{UsbLpt, open_device}
use lpt_to_usb_adapter.UsbLpt.Listing.{UsbLptDevice}
use lpt_to_usb_adapter.UsbLpt.Identity.{Holds, IsCut, IsDevice, running, updating}

-- The buffer for the path of an enumerated device.
unfoldable pub Located : UsbDeviceInfo → List ℕ → Type 0
Located info location =
    (identifier : List ℕ) × (info.device_identifier ≡ some identifier) × IsCut identifier location

-- The buffer for its serial number; without one, it starts with a 0.
unfoldable pub Numbered : List UsbString → List ℕ → Type 0
Numbered chain serial =
    ((chain ≡ []) × ((rest : List ℕ) × (serial ≡ 0 ∷ rest)))
    ⊎ ((str : UsbString) × (next : List UsbString) × (chain ≡ str ∷ next) × IsCut str.string serial)

module _ {W : Type 0} (api : Api W) where
  -- In some state the device at this location, a buffer with its path, was opened, or was not.
  unfoldable pub Opens : List ℕ → Option UsbLpt → Type 0
  Opens location opened =
      (path : List ℕ) × (s : Host W) × Holds location path × ((open_device api path s).0 ≡ opened)

  -- A device of the list that stands for one that was enumerated.
  unfoldable pub IsListed : UsbDeviceInfo → UsbLptDevice → Type 0
  IsListed info device =
      IsDevice running info
      × Located info device.location
      × Numbered info.serial device.serial
      × ((lpt : UsbLpt) × (device.version ≡ lpt.version) × Opens device.location (some lpt))

  -- A device that was enumerated and is not in the list: another device, an adapter in its boot
  -- loader, or one that cannot be opened.
  unfoldable pub IsPassed : UsbDeviceInfo → Type 0
  IsPassed info =
      (¬ (IsDevice running info) × ¬ (IsDevice updating info))
      ⊎ (IsDevice updating info
          ⊎ ((location : List ℕ) × Located info location × Opens location none))

  -- What a list with this room has of the enumerated devices, in their order.
  unfoldable pub Picks : ℕ → List UsbDeviceInfo → List UsbLptDevice → Type 0
  Picks zero infos devices = devices ≡ []
  Picks (suc room) [] devices = devices ≡ []
  Picks (suc room) (info ∷ infos) devices =
      (IsPassed info × Picks (suc room) infos devices)
      ⊎ ((device : UsbLptDevice) × (rest : List UsbLptDevice) × (devices ≡ device ∷ rest)
          × IsListed info device
          × Picks room infos rest)
