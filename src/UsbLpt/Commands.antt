-- ===== src/UsbLpt/Commands.antt =====
-- The commands of LptToUsbAdapter/UsbLptLib/UsbLptLib.c. A device of the first two versions takes
-- vendor requests; a later one takes commands on its pipes.
use lpt_to_usb_adapter.Base.{
  ℕ, ◌+◌, ◌-◌, Bool, true, false, not, ◌&&◌, Option, none, some, List, [], ◌∷◌, length, get_or,
  replicate, ltb, ◌==◌, if◌then◌else◌, u8, u16,
}
use lpt_to_usb_adapter.Usb.Api.{Api, M, pure, ◌>>=◌, ◌>>◌, peek, free, alloc}
use lpt_to_usb_adapter.UsbLpt.Command
use lpt_to_usb_adapter.Usb.Device.{
  UsbHandle, open_device_by_path, close_device, write_vendor_request, read_vendor_request,
  write_pipe_default_interface, read_pipe_default_interface,
}

-- `struct USBLPT_t`; the version is kept as its forty bytes.
pub record UsbLpt : Type 0 where
  pub usb_handles : UsbHandle
  pub version : List ℕ
  pub no_special_endpoint : Bool

abbrev pub pipe_out : ℕ
pipe_out = 0x01

abbrev pub pipe_in : ℕ
pipe_in = 0x82

-- `sizeof(USBLPT_version)`
abbrev pub version_size : ℕ
version_size = 40

-- `version.implementation`, the first byte.
abbrev pub implementation : List ℕ → ℕ
implementation version = get_or version 0 0

module _ {W : Type 0} (api : Api W) where
  -- The second part of `UsbLpt_BulkCmd`: a buffer and its size, if data is to be received.
  abbrev receive : UsbHandle → Option (List ℕ × ℕ) → M W (Option (List ℕ × ℕ))
  receive handle none = pure (some ([], 0))
  receive handle (some (buffer, size)) = read_pipe_default_interface api handle pipe_in buffer size

  abbrev send : UsbHandle → List ℕ → M W Bool
  send handle bytes = do
    sent ← write_pipe_default_interface api handle pipe_out bytes
    free
    pure sent

  abbrev exchange : UsbHandle → List ℕ → Option (List ℕ × ℕ) → M W (Option (List ℕ × ℕ))
  exchange handle bytes data_recv = do
    sent ← send handle bytes
    if sent then receive handle data_recv else pure none

  -- `UsbLpt_BulkCmd`: the buffer and size after a return of true.
  unfoldable pub bulk_cmd : UsbHandle → ℕ → List ℕ → Option (List ℕ × ℕ) → M W (Option (List ℕ × ℕ))
  bulk_cmd handle cmd data_send data_recv = do
    got ← alloc api (1 + length data_send)
    if got then exchange handle (cmd ∷ data_send) data_recv else pure none

  -- A command of which only success is asked.
  abbrev pub bulk_bool : UsbHandle → ℕ → List ℕ → M W Bool
  bulk_bool handle cmd data_send = do
    r ← bulk_cmd handle cmd data_send none
    pure (elim r [ none ↦ false | some _ ↦ true ])

  -- `UsbLpt_ForceBootloader`
  unfoldable pub force_bootloader : UsbLpt → M W Bool
  force_bootloader dev =
      if dev.no_special_endpoint
      then write_vendor_request api dev.usb_handles Command.force_bootloader 0 0 []
      else bulk_bool dev.usb_handles Command.force_bootloader []

  -- `UsbLpt_Reset`
  unfoldable pub reset : UsbLpt → M W Bool
  reset dev =
      if dev.no_special_endpoint
      then write_vendor_request api dev.usb_handles Command.reset 0 0 []
      else bulk_bool dev.usb_handles Command.reset []

  -- `UsbLpt_SetMode`
  unfoldable pub set_mode : UsbLpt → ℕ → M W Bool
  set_mode dev mode =
      if dev.no_special_endpoint
      then write_vendor_request api dev.usb_handles Command.set_mode (u16 mode) 0 []
      else bulk_bool dev.usb_handles Command.set_mode (u8 mode ∷ [])

  abbrev get_version_bytes : UsbHandle → Bool → M W (Option (List ℕ × ℕ))
  get_version_bytes handle no_special_endpoint =
      let zeroed = replicate version_size 0 in
      if no_special_endpoint
      then read_vendor_request api handle Command.get_version 0 0 zeroed version_size
      else bulk_cmd handle Command.get_version [] (some (zeroed, version_size))

  -- `UsbLpt_GetVersion`: a version of 40 bytes, or of 8 with zeroes behind.
  unfoldable pub get_version : UsbHandle → Bool → M W (Option (List ℕ))
  get_version handle no_special_endpoint = do
    r ← get_version_bytes handle no_special_endpoint
    pure (elim r [
      | none ↦ none
      | some (version, size) ↦
          if not (size == version_size) && not (size == version_size - 32)
          then none
          else some version
    ])

  -- `UsbLpt_SetPort8`
  unfoldable pub set_port8 : UsbLpt → ℕ → ℕ → M W Bool
  set_port8 dev reg byte =
      if dev.no_special_endpoint
      then write_vendor_request api dev.usb_handles Command.set_reg (u16 reg) byte []
      else bulk_bool dev.usb_handles Command.set_reg (u8 reg ∷ byte ∷ [])

  abbrev get_port8_bytes : UsbLpt → ℕ → M W (Option (List ℕ × ℕ))
  get_port8_bytes dev reg =
      if dev.no_special_endpoint
      then read_vendor_request api dev.usb_handles Command.get_reg (u16 reg) 0 [] 1
      else bulk_cmd dev.usb_handles Command.get_reg (u8 reg ∷ []) (some ([], 1))

  -- `UsbLpt_GetPort8`: the byte after a return of true.
  unfoldable pub get_port8 : UsbLpt → ℕ → M W (Option ℕ)
  get_port8 dev reg = do
    r ← get_port8_bytes dev reg
    pure (elim r [
      | none ↦ none
      | some (buffer, recv) ↦ if not (recv == 1) then none else some (get_or buffer 0 0)
    ])

  -- `UsbLpt_Close`
  unfoldable pub close : UsbLpt → M W Bool
  close dev = do done ← close_device api dev.usb_handles; free; pure true

  -- The end of `UsbLpt_Open`. `no_special_endpoint` is read before it is set: at the first call
  -- of `UsbLpt_GetVersion` it holds what the block held.
  abbrev identify : Bool → UsbHandle → M W (Option UsbLpt)
  identify stale handle = do
    r ← get_version handle stale
    elim r [
      | none ↦ do
        done ← close (record { usb_handles = handle; version = []; no_special_endpoint = stale })
        pure none
      | some version ↦ pure (
          some (record {
            usb_handles = handle;
            version = version;
            no_special_endpoint = ltb (implementation version) 2;
          }))
    ]

  abbrev pub open_location : List ℕ → M W (Option UsbLpt)
  open_location location = do
    stale ← peek api.heap_flag
    r ← open_device_by_path api location
    elim r [ none ↦ free >> pure none | some handle ↦ identify stale handle ]

  -- `UsbLpt_Open`, on the location of the device.
  unfoldable pub open_device : List ℕ → M W (Option UsbLpt)
  open_device location = do got ← alloc api 48; if got then open_location location else pure none
