-- ===== src/UsbLpt/Dfu.antt =====
-- The firmware update of LptToUsbAdapter/UsbLptLib/UsbLptLib.c.
use lpt_to_usb_adapter.Base.{
  ℕ, zero, suc, ◌+◌, ◌%◌, ◌-◌, ◌^◌, Bool, true, false, ◌&&◌, Option, none, some, List, [], ◌∷◌,
  ◌++◌, length, get_or, take, drop, ltb, ◌==◌, if◌then◌else◌, u32, le32, min,
}
use lpt_to_usb_adapter.Usb.Api.{Api, M, pure, ◌>>=◌, ◌>>◌, peek, free, alloc}
use lpt_to_usb_adapter.UsbLpt.Command
use lpt_to_usb_adapter.UsbLpt.Commands.{UsbLpt, bulk_cmd, reset, implementation}

-- `result != 0 || size != 1`, of a reply of one byte
abbrev pub accepted : Option (List ℕ × ℕ) → Bool
accepted none = false
accepted (some (buffer, size)) = get_or buffer 0 0 == 0 && size == 1

-- `for (try = 0; try<max_try_count; try++)`, with the tries left.
unfoldable pub retry : {W : Type 0} → ℕ → M W Bool → M W Bool
retry zero step s = (false, s)
retry (suc tries) step s =
    let (success, s') = step s in elim success [ true ↦ (true, s') | false ↦ retry tries step s' ]

module _ {W : Type 0} (api : Api W) where
  -- A command that is answered by a result byte, which the stack holds before.
  abbrev confirmed : UsbLpt → ℕ → List ℕ → M W Bool
  confirmed dev cmd bytes = do
    result ← peek api.stack_byte
    r ← bulk_cmd api dev.usb_handles cmd bytes (some (result ∷ [], 1))
    pure (accepted r)

  -- `UsbLpt_DFU_EraseFlash`
  unfoldable pub erase_flash : UsbLpt → M W Bool
  erase_flash dev = confirmed dev Command.dfu_erase []

  abbrev send_block : UsbLpt → List ℕ → M W Bool
  send_block dev bytes = do sent ← confirmed dev Command.dfu_ldblock bytes; free; pure sent

  -- `UsbLpt_DFU_SendFirmware`
  unfoldable pub send_firmware : UsbLpt → ℕ → List ℕ → M W Bool
  send_firmware dev address bytes = do
    got ← alloc api (4 + length bytes)
    if got then send_block dev (le32 address ++ bytes) else pure false

  -- `UsbLpt_DFU_Finalize`
  unfoldable pub finalize : UsbLpt → ℕ → List ℕ → M W Bool
  finalize dev firmware_size sha512 =
      confirmed dev Command.dfu_finalize (le32 firmware_size ++ take 64 sha512)

  abbrev pub max_try_count : ℕ
  max_try_count = 3

  -- The loop of `UsbLpt_DFU_LoadFirmware` from an offset on; `none` if the fuel runs out.
  unfoldable pub send_blocks : ℕ → UsbLpt → ℕ → List ℕ → ℕ → ℕ → M W (Option Bool)
  send_blocks zero dev base firmware block_size offset s = (none, s)
  send_blocks (suc fuel) dev base firmware block_size offset s =
      let chunk = take (min (length firmware - offset) block_size) (drop offset firmware) in
      let (success, s') = retry max_try_count (send_firmware dev (u32 (base + offset)) chunk) s in
      let rest = send_blocks fuel dev base firmware block_size (u32 (offset + block_size)) s' in
      if ltb offset (length firmware)
      then (if success then rest else (some false, s'))
      else (some true, s)

  -- The body behind the loop.
  abbrev pub finish : UsbLpt → ℕ → List ℕ → Option Bool → M W (Option Bool)
  finish dev firmware_size sha512 none = pure none
  finish dev firmware_size sha512 (some false) = pure (some false)
  finish dev firmware_size sha512 (some true) = do
    done ← finalize dev firmware_size sha512
    pure (some done)

  abbrev load_blocks : ℕ → UsbLpt → ℕ → List ℕ → List ℕ → ℕ → M W (Option Bool)
  load_blocks fuel dev base firmware sha512 block_size = do
    loaded ← send_blocks fuel dev base firmware block_size 0
    finish dev (length firmware) sha512 loaded

  -- `UsbLpt_DFU_LoadFirmware`
  unfoldable pub load_firmware : ℕ → UsbLpt → ℕ → List ℕ → List ℕ → ℕ → M W (Option Bool)
  load_firmware fuel dev base firmware sha512 block_size = do
    erased ← erase_flash dev
    if erased then load_blocks fuel dev base firmware sha512 block_size else pure (some false)

  -- `version.v3.revision`, and whether `version.v3.chip_id` is that of a CH32V305RBT6.
  abbrev revision : List ℕ → ℕ
  revision version = get_or version 8 0

  abbrev chip_fits : List ℕ → Bool
  chip_fits version =
      (get_or version 9 0 % 2 ^ 4 == 0x08)
      && (get_or version 10 0 == 0x05)
      && (get_or version 11 0 == 0x50)
      && (get_or version 12 0 == 0x30)

  -- The update of a device that fits: the image, then a reset.
  abbrev load_and_reset : ℕ → UsbLpt → ℕ → List ℕ → List ℕ → ℕ → M W (Option Bool)
  load_and_reset fuel dev base firmware sha512 block_size = do
    loaded ← load_firmware fuel dev base firmware sha512 block_size
    elim loaded [
      | none ↦ pure none
      | some false ↦ pure (some false)
      | some true ↦ do done ← reset api dev; pure (some done)
    ]

  -- `UsbLpt_FirmwareUpdate`, with the base, the image, its SHA-512 and the block size of
  -- USBLPT3R0_firmware.h.
  unfoldable pub firmware_update : ℕ → UsbLpt → ℕ → List ℕ → List ℕ → ℕ → M W (Option Bool)
  firmware_update fuel dev base firmware sha512 block_size =
      if ltb (implementation dev.version) 0x80
      then pure (some false)
      else if (implementation dev.version % 2 ^ 7 == 2) && (revision dev.version == 0)
      then if chip_fits dev.version
        then load_and_reset fuel dev base firmware sha512 block_size
        else pure (some false)
      else pure (some false)
