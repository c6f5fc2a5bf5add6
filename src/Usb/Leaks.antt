-- ===== src/Usb/Leaks.antt =====
-- What LptToUsbAdapter/UsbLptLib/UsbWrappers.c takes to open a device, against what it gives back.
use lpt_to_usb_adapter.Base.{ℕ, ◌+◌, ◌≡◌, Option, none, some, List, arith}
use lpt_to_usb_adapter.Usb.Api.{Api, Host}
use lpt_to_usb_adapter.Usb.Device.{UsbHandle, open_device_by_path, close_device}

-- Between two states as many of each resource were given back as were taken, but for `blocks`
-- blocks, `files` files and `interfaces` interfaces that are held on.
pub record Balanced {W : Type 0} (blocks files interfaces : ℕ) (before after : Host W)
    : Type 0 where
  pub same_blocks : after.allocated + before.freed ≡ before.allocated + after.freed + blocks
  pub same_files : after.opened + before.closed ≡ before.opened + after.closed + files
  pub same_interfaces :
      after.initialized + before.released ≡ before.initialized + after.released + interfaces

-- How many handles an opened device stands for.
abbrev pub held : Option UsbHandle → ℕ
held none = 0
held (some h) = 1

module _ {W : Type 0} (api : Api W) where
  -- Opening a device holds on to one block, one file and one interface if it succeeds, and else
  -- gives back all that it took, whichever call failed.
  pub open_device_by_path-Balanced :
      (path : List ℕ) (s : Host W)
      → let (r, s') = open_device_by_path api path s in Balanced (held r) (held r) (held r) s s'
  unfolding open_device_by_path
  open_device_by_path-Balanced path s = ground arith

  -- Closing an opened device gives back every handle and block that opening took.
  close_device-Balanced :
      (path : List ℕ) (s : Host W) (h : UsbHandle)
      → (open_device_by_path api path s).0 ≡ some h
      → Balanced 0 0 0 s (close_device api h (open_device_by_path api path s).1).1
  unfolding close_device
  close_device-Balanced path s h e = ground (arith, open_device_by_path-Balanced path s)
