-- ===== src/Link.antt =====
-- The host's library (LptToUsbAdapter/UsbLptLib) against the firmware (Firmware/AVRUSBLPT),
-- over the control endpoint.
pub mod Tests
use lpt_to_usb_adapter.Base.{
  ℕ, ◌+◌, ◌≤◌, ◌<◌, ◌≡◌, refl, Bool, true, false, Option, none, some, List, [], ◌∷◌, ◌++◌, length,
  take, replicate, arith, ap, ◌∙◌, u16, ◌^◌, if◌then◌else◌, ltb, Bool-cases, inl, inr,
}
use lpt_to_usb_adapter.Lpt.Pins.{Board, Mcu}
use lpt_to_usb_adapter.Lpt.Driver
use lpt_to_usb_adapter.Device.{
  SetupPacket, Device, Version, version_bytes, mode_of, reg_of, function_setup, usblpt_set_reg,
  usblpt_get_reg, usblpt_set_mode, usblpt_get_version,
}
use lpt_to_usb_adapter.Device.Requests.{
  packet, function_setup-set_reg, function_setup-get_reg, function_setup-set_mode,
}
use lpt_to_usb_adapter.Usb.Api.{Api, Host, ◌>>=◌}
use lpt_to_usb_adapter.Usb.Device.{
  UsbHandle, write_pipe_default_interface, write_vendor_request, read_vendor_request,
  open_device_by_path,
}
use lpt_to_usb_adapter.UsbLpt.Command
use lpt_to_usb_adapter.UsbLpt.Commands.{
  UsbLpt, bulk_cmd, open_location, pipe_out, set_mode, set_port8, get_port8, get_version,
  open_device, close,
}

-- The transport: a control transfer hands its setup packet to the adapter, and a transfer in
-- brings back at most the length that was asked for. The adapter has no pipes. No other call
-- reaches it, and memory is given.
pub record IsLinked {W : Type 0} (api : Api W) (board : Board) (device : W → Device) : Type 0 where
  pub out_sent : (h : ℕ) (rq : SetupPacket) (w : W) → (api.control_out h rq [] w).0 ≡ some 0
  pub out_served :
      (h : ℕ) (rq : SetupPacket) (w : W)
      → device (api.control_out h rq [] w).1 ≡ (function_setup board rq (device w)).1
  pub in_arrived :
      (h : ℕ) (rq : SetupPacket) (n : ℕ) (w : W)
      → (api.control_in h rq n w).0 ≡ some (take rq.length (function_setup board rq (device w)).0)
  pub in_served :
      (h : ℕ) (rq : SetupPacket) (n : ℕ) (w : W)
      → device (api.control_in h rq n w).1 ≡ (function_setup board rq (device w)).1
  pub no_pipe : (h pipe : ℕ) (bytes : List ℕ) (w : W) → (api.write_pipe h pipe bytes w).0 ≡ none

module _ {W : Type 0} (api : Api W) (board : Board) (device : W → Device)
    (l : IsLinked api board device) where
  -- For a device without special endpoint, a port of at most 4 and a byte, `UsbLpt_SetPort8` over
  -- the linked transport is `LPT_SetReg` of that register and byte on the adapter, and returns
  -- true.
  pub set_port8-set_reg :
      (dev : UsbLpt) (reg byte : ℕ) (s : Host W)
      → dev.no_special_endpoint ≡ true
      → reg ≤ 4
      → byte < 256
      → let (done, s') = set_port8 api dev reg byte s in
        (done ≡ true)
        × (device s'.world ≡ record (device s.world) {
          mcu = (Driver.set_reg board (reg_of reg) byte (device s.world).mcu).1;
        })
  unfolding set_port8 write_vendor_request
  set_port8-set_reg dev reg byte s v1 fits small =
      let usb = dev.usb_handles.dev_winusb_handle in
      let e : u16 reg ≡ reg = omega arith in
      let rq = packet 0x40 usblpt_set_reg reg byte 0 in
      rw (v1, e, l.out_sent usb rq s.world)
        (
          refl,
          l.out_served usb rq s.world
              ∙ ap (λ p. p.1) (function_setup-set_reg board reg byte (device s.world) fits small),
        )

  -- For a device without special endpoint and a port of at most 4, `UsbLpt_GetPort8` over the
  -- linked transport returns what `LPT_GetReg` of that register returns on the adapter, and leaves
  -- the adapter in the state behind that call, with the byte in `IoByte`.
  pub get_port8-get_reg :
      (dev : UsbLpt) (reg : ℕ) (s : Host W)
      → dev.no_special_endpoint ≡ true
      → reg ≤ 4
      → let (byte, mcu') = Driver.get_reg board (reg_of reg) (device s.world).mcu in
        let (r, s') = get_port8 api dev reg s in
        (r ≡ some byte) × (device s'.world ≡ record (device s.world) { mcu = mcu'; io_byte = byte })
  unfolding get_port8 read_vendor_request
  get_port8-get_reg dev reg s v1 fits =
      let usb = dev.usb_handles.dev_winusb_handle in
      let e : u16 reg ≡ reg = omega arith in
      let rq = packet 0xc0 usblpt_get_reg reg 0 1 in
      let served = function_setup-get_reg board reg (device s.world) fits in
      let arrived = l.in_arrived usb rq 1 s.world ∙ ap (λ p. some (take 1 p.0)) served in
      rw (v1, e, arrived) (refl, l.in_served usb rq 1 s.world ∙ ap (λ p. p.1) served)

  -- For a device without special endpoint and a mode of 16 bits, `UsbLpt_SetMode` over the linked
  -- transport is `LPT_SetMode` of the mode that the number stands for on the adapter, EPP for any
  -- above 2, and returns true.
  set_mode-set_mode :
      (dev : UsbLpt) (mode : ℕ) (s : Host W)
      → dev.no_special_endpoint ≡ true
      → mode < 2 ^ 16
      → let (done, s') = set_mode api dev mode s in
        (done ≡ true)
        × (device s'.world ≡ record (device s.world) {
          mcu = (Driver.set_mode (mode_of mode) (device s.world).mcu).1;
        })
  unfolding set_mode write_vendor_request
  set_mode-set_mode dev mode s v1 fits =
      let usb = dev.usb_handles.dev_winusb_handle in
      let e : u16 mode ≡ mode = omega arith in
      let rq = packet 0x40 usblpt_set_mode mode 0 0 in
      rw (v1, e, l.out_sent usb rq s.world)
        (
          refl,
          l.out_served usb rq s.world
              ∙ ap (λ p. p.1) (function_setup-set_mode board mode (device s.world)),
        )

  -- The version that `UsbLpt_GetVersion` reads over the linked control endpoint: the eight bytes
  -- of the adapter's, and 32 zeroes.
  pub get_version-linked :
      (handle : UsbHandle) (s : Host W)
      → (get_version api handle true s).0
        ≡ some (version_bytes (device s.world).version ++ replicate 32 0)
  unfolding get_version read_vendor_request function_setup
  get_version-linked handle s =
      let rq = packet 0xc0 usblpt_get_version 0 0 40 in
      rw (l.in_arrived handle.dev_winusb_handle rq 40 s.world)

  -- Without a pipe a version command fails.
  get_version-piped :
      ((n : ℕ) (w : W) → api.malloc n w ≡ (true, w))
      → (handle : UsbHandle) (s : Host W) → (get_version api handle false s).0 ≡ none
  unfolding get_version bulk_cmd write_pipe_default_interface
  get_version-piped given handle s = rw (
    given 1 s.world,
    l.no_pipe handle.dev_winusb_handle pipe_out (Command.get_version ∷ []) s.world,
  )

  -- Opening the path gives the handle, where each of its calls succeeds.
  open_device_by_path-works :
      (location : List ℕ) (s : Host W) (handle : UsbHandle)
      → ((n : ℕ) (w : W) → api.malloc n w ≡ (true, w))
      → ((w : W) → api.create_file location w ≡ (some handle.dev_handle, w))
      → ((w : W) → api.winusb_initialize handle.dev_handle w ≡ (some handle.dev_winusb_handle, w))
      → open_device_by_path api location s ≡ (
        some handle,
        record s {
          opened = s.opened + 1;
          initialized = s.initialized + 1;
          allocated = s.allocated + 1;
        },
      )
  unfolding open_device_by_path
  open_device_by_path-works location s handle given file usb =
      ground (arith, file s.world, usb s.world, given 8 s.world)

  -- Where memory is given and the handles are opened, opening a linked adapter of a revision below
  -- 2 gives the device if the new block happens to hold a set flag, and nothing if it holds a
  -- cleared one.
  pub open_device-stale_flag :
      (location : List ℕ) (s : Host W) (handle : UsbHandle)
      → ((n : ℕ) (w : W) → api.malloc n w ≡ (true, w))
      → ((w : W) → api.create_file location w ≡ (some handle.dev_handle, w))
      → ((w : W) → api.winusb_initialize handle.dev_handle w ≡ (some handle.dev_winusb_handle, w))
      → (device s.world).version.revision < 2
      → let version = version_bytes (device s.world).version ++ replicate 32 0 in
        (open_device api location s).0 ≡ (
          if api.heap_flag s.world
          then some (record { usb_handles = handle; version = version; no_special_endpoint = true })
          else none)
  unfolding open_device
  open_device-stale_flag location s handle given file usb old =
      let s1 = record s { allocated = s.allocated + 1 } in
      let s2 = record s {
        opened = s.opened + 1;
        initialized = s.initialized + 1;
        allocated = s.allocated + 1 + 1;
      } in
      let less : ltb (device s.world).version.revision 2 ≡ true = ground arith in
      let opened = open_device_by_path-works location s1 handle given file usb in
      elim (Bool-cases (api.heap_flag s.world)) [
        | inl e ↦
            rw
              (
                given 48 s.world,
                if◌then◌else◌,
                open_location,
                ◌>>=◌,
                e,
                opened,
                e,
                ◌>>=◌,
                get_version-linked handle s2,
                less,
              )
              refl
        | inr e ↦
            rw
              (
                given 48 s.world,
                if◌then◌else◌,
                open_location,
                ◌>>=◌,
                e,
                opened,
                e,
                ◌>>=◌,
                get_version-piped given handle s2,
              )
              refl
      ]
