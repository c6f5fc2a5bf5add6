-- ===== src/Usb/Device.antt =====
-- The functions on an open device of LptToUsbAdapter/UsbLptLib/UsbWrappers.c.
use lpt_to_usb_adapter.Base.{
  ℕ, ◌+◌, Bool, true, false, Option, none, some, List, ◌++◌, length, drop, ltb, ◌==◌, if◌then◌else◌,
  u16,
}
use lpt_to_usb_adapter.Usb.Api.{Api, M, pure, ◌>>=◌, ◌>>◌, call, free, alloc, unless_none}

-- `struct USBHANDLE_t`
pub record UsbHandle : Type 0 where
  pub dev_handle : ℕ
  pub dev_winusb_handle : ℕ

-- A buffer after bytes arrived at its start.
abbrev pub overlay : List ℕ → List ℕ → List ℕ
overlay bytes buffer = bytes ++ drop (length bytes) buffer

module _ {W : Type 0} (api : Api W) where
  abbrev pub create_file : List ℕ → M W (Option ℕ)
  create_file path s =
      let (r, w) = api.create_file path s.world in
      elim r [
        | none ↦ (none, record s { world = w })
        | some h ↦ (some h, record s { world = w; opened = s.opened + 1 })
      ]

  abbrev winusb_initialize : ℕ → M W (Option ℕ)
  winusb_initialize device s =
      let (r, w) = api.winusb_initialize device s.world in
      elim r [
        | none ↦ (none, record s { world = w })
        | some h ↦ (some h, record s { world = w; initialized = s.initialized + 1 })
      ]

  abbrev pub close_handle : ℕ → M W (Unit {0})
  close_handle h s = (tt, record s { world = api.close_handle h s.world; closed = s.closed + 1 })

  abbrev winusb_free : ℕ → M W (Unit {0})
  winusb_free h s = (tt, record s { world = api.winusb_free h s.world; released = s.released + 1 })

  -- The end of `USBWRAP_OpenDeviceByPath`: the handle's block, or both handles given back.
  abbrev keep_handle : ℕ → ℕ → M W (Option UsbHandle)
  keep_handle device wih = do
    got ← alloc api 8
    if got
        then pure (some (record { dev_handle = device; dev_winusb_handle = wih }))
        else (winusb_free wih >> (close_handle device >> pure none))

  abbrev attach : ℕ → M W (Option UsbHandle)
  attach device = do
    wih ← winusb_initialize device
    elim wih [ none ↦ close_handle device >> pure none | some h ↦ keep_handle device h ]

  -- `USBWRAP_OpenDeviceByPath`
  unfoldable pub open_device_by_path : List ℕ → M W (Option UsbHandle)
  open_device_by_path path = unless_none (create_file path) attach

  -- `USBWRAP_CloseDevice`
  unfoldable pub close_device : UsbHandle → M W Bool
  close_device handle = do
    winusb_free handle.dev_winusb_handle
    close_handle handle.dev_handle
    free
    pure true

  -- `USBWRAP_WriteVendorRequest`
  unfoldable pub write_vendor_request : UsbHandle → ℕ → ℕ → ℕ → List ℕ → M W Bool
  write_vendor_request dev request value index bytes =
      if ltb 65535 (length bytes) then pure false else do
        transferred ← call (
            api.control_out dev.dev_winusb_handle
              (record {
                request_type = 0x40;
                request = request;
                value = value;
                index = index;
                length = u16 (length bytes);
              })
              bytes)
        pure (elim transferred [ none ↦ false | some n ↦ n == length bytes ])

  -- `USBWRAP_ReadVendorRequest`: the buffer and the size after a return of true.
  unfoldable pub read_vendor_request :
      UsbHandle → ℕ → ℕ → ℕ → List ℕ → ℕ → M W (Option (List ℕ × ℕ))
  read_vendor_request dev request value index buffer size = if ltb 65535 size then pure none else do
    arrived ← call (
        api.control_in dev.dev_winusb_handle
          (record {
            request_type = 0xc0;
            request = request;
            value = value;
            index = index;
            length = u16 size;
          })
          size)
    pure (elim arrived [ none ↦ none | some bytes ↦ some (overlay bytes buffer, length bytes) ])

  -- `USBWRAP_WritePipeDefaultInterface`
  unfoldable pub write_pipe_default_interface : UsbHandle → ℕ → List ℕ → M W Bool
  write_pipe_default_interface dev pipe bytes = do
    transferred ← call (api.write_pipe dev.dev_winusb_handle pipe bytes)
    pure (elim transferred [ none ↦ false | some n ↦ n == length bytes ])

  -- `USBWRAP_ReadPipeDefaultInterface`: the buffer and the size after a return of true.
  unfoldable pub read_pipe_default_interface :
      UsbHandle → ℕ → List ℕ → ℕ → M W (Option (List ℕ × ℕ))
  read_pipe_default_interface dev pipe buffer size = do
    arrived ← call (api.read_pipe dev.dev_winusb_handle pipe size)
    pure (elim arrived [ none ↦ none | some bytes ↦ some (overlay bytes buffer, length bytes) ])
