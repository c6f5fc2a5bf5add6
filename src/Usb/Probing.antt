-- ===== src/Usb/Probing.antt =====
-- What the list of devices of LptToUsbAdapter/UsbLptLib/UsbWrappers.c costs on other systems.
use lpt_to_usb_adapter.Base.{
  ℕ, ◌+◌, ◌≡◌, Bool, ◌&&◌, true, false, Option, none, some, List, [], ◌∷◌, ◌*◌, length,
  if◌then◌else◌,
}
use lpt_to_usb_adapter.Usb.Api.{Api, Host, alloc}
use lpt_to_usb_adapter.Usb.Libusb.{Libusb, probe_all}

-- Between two states every device that was opened was closed, and the number of blocks and lists
-- that are held on is known.
pub record Holds {W : Type 0} (blocks lists : ℕ) (before after : Host W) : Type 0 where
  pub handles : after.opened + before.closed ≡ before.opened + after.closed
  pub blocks_held : after.allocated + before.freed ≡ before.allocated + after.freed + blocks
  pub lists_held : after.initialized + before.released ≡ before.initialized + after.released + lists

module _ {W : Type 0} (api : Api W) (libusb : Libusb W) where
  -- Whether there is a device, and every call succeeds.
  abbrev pub all_probed : Option (List ℕ) → Host W → Bool
  all_probed none s = false
  all_probed (some []) s = false
  all_probed (some (dev ∷ devs)) s =
      let (got, s') = alloc api (length (dev ∷ devs) * libusb.info_size) s in
      got && (probe_all api libusb 0 (dev ∷ devs) s').0

  abbrev pub is_empty : Option (List ℕ) → Bool
  is_empty none = false
  is_empty (some []) = true
  is_empty (some (dev ∷ devs)) = false

  abbrev pub one_if : Bool → ℕ
  one_if b = if b then 1 else 0
