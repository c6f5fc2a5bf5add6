-- ===== src/UsbLpt/Loading.antt =====
-- The firmware update of LptToUsbAdapter/UsbLptLib/UsbLptLib.c returns, whatever the device
-- answers.
use lpt_to_usb_adapter.Base.{
  ℕ, zero, suc, ◌+◌, ◌-◌, ◌^◌, ◌≤◌, ◌<◌, ◌≡◌, refl, inl, inr, List, length, take, drop, arith, ltb,
  u32, min, Bool-cases,
}
use lpt_to_usb_adapter.Usb.Api.{Api, Host}
use lpt_to_usb_adapter.Usb.Setup.{SetupApi}
use lpt_to_usb_adapter.Usb.Blocks.{count}
use lpt_to_usb_adapter.UsbLpt.Commands.{UsbLpt}
use lpt_to_usb_adapter.UsbLpt.Dfu.{
  retry, erase_flash, send_firmware, send_blocks, load_firmware, firmware_update,
}
use lpt_to_usb_adapter.UsbLpt.Listing.{Image, update}

-- An image that is loaded within its fuel.
pub record IsLoadable (image : Image) : Type 0 where
  pub some_bytes : 0 < image.block_size
  pub fits : length image.firmware + image.block_size ≤ 2 ^ 32
  pub enough : length image.firmware < image.fuel

module _ {W : Type 0} (api : Api W) where
  send_blocks-count :
      (fuel : ℕ) (dev : UsbLpt) (base : ℕ) (firmware : List ℕ) (size offset : ℕ) (s : Host W)
      → 0 < size
      → length firmware + size ≤ 2 ^ 32
      → length firmware - offset < fuel
      → count (send_blocks api fuel dev base firmware size offset s).0 ≡ 1
  unfolding send_blocks
  send_blocks-count zero dev base firmware size offset s pos fits enough = absurd (omega arith)
  send_blocks-count (suc fuel) dev base firmware size offset s pos fits enough =
      let block = take (min (length firmware - offset) size) (drop offset firmware) in
      let (success, s') = retry 3 (send_firmware api dev (u32 (base + offset)) block) s in
      elim (Bool-cases (ltb offset (length firmware))) [
        | inl more ↦
            let next : u32 (offset + size) ≡ offset + size = ground arith in
            let rest =
              send_blocks-count fuel dev base firmware size (u32 (offset + size)) s' pos fits
                (ground arith) in
            rw more (elim (Bool-cases success) [ inl e ↦ rw e rest | inr e ↦ rw e refl ])
        | inr done ↦ rw done refl
      ]

  load_firmware-count :
      (fuel : ℕ) (dev : UsbLpt) (base : ℕ) (firmware sha512 : List ℕ) (size : ℕ) (s : Host W)
      → 0 < size
      → length firmware + size ≤ 2 ^ 32
      → length firmware < fuel
      → count (load_firmware api fuel dev base firmware sha512 size s).0 ≡ 1
  unfolding load_firmware
  load_firmware-count fuel dev base firmware sha512 size s pos fits enough = ground (
    arith,
    send_blocks-count fuel dev base firmware size 0 (erase_flash api dev s).1 pos fits
        (omega arith),
  )

  pub update-count :
      (setup : SetupApi W) (image : Image) (dev : UsbLpt) (s : Host W)
      → IsLoadable image
      → count (update api setup image dev s).0 ≡ 1
  unfolding firmware_update
  update-count setup image dev s loads = ground (
    arith,
    load_firmware-count image.fuel dev image.base image.firmware image.sha512 image.block_size s
        loads.some_bytes loads.fits loads.enough,
  )
