-- ===== src/Usb/Libusb.antt =====
-- LptToUsbAdapter/UsbLptLib/UsbWrappers.c on other systems than Windows, over the calls of libusb.
use lpt_to_usb_adapter.Base.{
  ℕ, suc, ◌+◌, ◌*◌, Bool, true, false, Option, none, some, List, [], ◌∷◌, length,
}
use lpt_to_usb_adapter.Usb.Api.{Api, M, pure, ◌>>=◌, ◌>>◌, call, and_then, alloc, free}

-- The fields of `struct libusb_device_descriptor` that are printed.
pub record LibusbDescriptor : Type 0 where
  pub id_vendor : ℕ
  pub id_product : ℕ
  pub bcd_device : ℕ

-- The calls; `none` is a return of an error. Freeing a list may give up the devices in it. What is
-- printed for a device, and for the string that is read, is left open.
pub record Libusb (W : Type 0) : Type 0 where
  -- `sizeof(UsbDeviceInfo)`
  pub info_size : ℕ
  pub init : W → Bool × W
  pub exit : W → W
  pub get_device_list : W → Option (List ℕ) × W
  pub free_device_list : Bool → W → W
  pub get_device_descriptor : ℕ → W → Option LibusbDescriptor × W
  pub open_usb_device : ℕ → W → Option ℕ × W
  pub get_descriptor_string : ℕ → ℕ → W → ℕ × W
  pub close_usb_device : ℕ → W → W
  pub print_device : ℕ → LibusbDescriptor → W → W
  pub print_string : ℕ → W → W

-- How many lists a call that returned this has made.
abbrev pub taken : Option (List ℕ) → ℕ
taken none = 0
taken (some devs) = 1

module _ {W : Type 0} (api : Api W) (libusb : Libusb W) where
  -- `USBWRAP_Init` and `USBWRAP_DeInit`
  abbrev pub libusb_init : M W Bool
  libusb_init = call libusb.init

  abbrev pub libusb_de_init : M W Bool
  libusb_de_init s = (true, record s { world = libusb.exit s.world })

  -- A list of devices is counted as a resource of the kind `initialized`, a device that is open as
  -- one of the kind `opened`.
  abbrev pub get_usb_list : M W (Option (List ℕ))
  get_usb_list s =
      let (devs, w) = libusb.get_device_list s.world in
      (devs, record s { world = w; initialized = s.initialized + taken devs })

  abbrev pub free_list : Bool → M W (Unit {0})
  free_list unref s =
      (tt, record s { world = libusb.free_device_list unref s.world; released = s.released + 1 })

  abbrev pub open_usb : ℕ → M W (Option ℕ)
  open_usb dev s =
      let (h, w) = libusb.open_usb_device dev s.world in
      (h, record s { world = w; opened = elim h [ none ↦ s.opened | some x ↦ s.opened + 1 ] })

  abbrev pub close_usb : ℕ → M W (Unit {0})
  close_usb h s =
      (tt, record s { world = libusb.close_usb_device h s.world; closed = s.closed + 1 })

  abbrev pub tell : (W → W) → M W (Unit {0})
  tell f s = (tt, record s { world = f s.world })

  -- The string of an open device is read into 32 bytes, and the device is closed.
  abbrev pub read_languages : ℕ → M W Bool
  read_languages h = do
    r ← call (libusb.get_descriptor_string h 32)
    _ ← tell (libusb.print_string r)
    _ ← close_usb h
    pure true

  -- One round of the loop: `false` if a call failed.
  abbrev pub probe_open : Option ℕ → M W Bool
  probe_open none = pure false
  probe_open (some h) = read_languages h

  abbrev pub probe_described : ℕ → ℕ → Option LibusbDescriptor → M W Bool
  probe_described i dev none = pure false
  probe_described i dev (some desc) = do
    _ ← tell (libusb.print_device i desc)
    h ← open_usb dev
    probe_open h

  abbrev pub probe : ℕ → ℕ → M W Bool
  probe i dev = do desc ← call (libusb.get_device_descriptor dev); probe_described i dev desc

  unfoldable pub probe_all : ℕ → List ℕ → M W Bool
  probe_all i [] = pure true
  probe_all i (dev ∷ devs) = and_then (probe i dev) (probe_all (suc i) devs)

  -- The end of the list's loop; when a call failed the block is freed, too.
  abbrev pub finish_list : Bool → M W Bool
  finish_list true = free_list false >> pure false
  finish_list false = free >> (free_list true >> pure false)

  abbrev pub with_block : List ℕ → Bool → M W Bool
  with_block devs false = free_list true >> pure false
  with_block devs true = do all ← probe_all 0 devs; finish_list all

  abbrev pub with_devices : Option (List ℕ) → M W Bool
  with_devices none = pure false
  with_devices (some []) = pure false
  with_devices (some (dev ∷ devs)) = do
    got ← alloc api (length (dev ∷ devs) * libusb.info_size)
    with_block (dev ∷ devs) got

  -- `USBWRAP_CreateUsbDevicesInfoList`
  unfoldable pub libusb_create_list : M W Bool
  libusb_create_list = do devs ← get_usb_list; with_devices devs

  -- The other functions, which the source leaves to be written.
  abbrev pub libusb_destroy_list : M W Bool
  libusb_destroy_list = pure false

  abbrev pub libusb_open_device_by_path : List ℕ → M W Bool
  libusb_open_device_by_path path = pure false

  abbrev pub libusb_close_device : ℕ → M W Bool
  libusb_close_device handle = pure false

  abbrev pub libusb_write_vendor_request : ℕ → ℕ → ℕ → ℕ → List ℕ → M W Bool
  libusb_write_vendor_request dev request value index bytes = pure false

  abbrev pub libusb_read_vendor_request : ℕ → ℕ → ℕ → ℕ → ℕ → M W Bool
  libusb_read_vendor_request dev request value index size = pure false

  abbrev pub libusb_read_pipe : ℕ → ℕ → ℕ → M W Bool
  libusb_read_pipe dev pipe size = pure false

  abbrev pub libusb_write_pipe : ℕ → ℕ → List ℕ → M W Bool
  libusb_write_pipe dev pipe bytes = pure false
