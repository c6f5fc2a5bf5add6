-- ===== src/Device/Eeprom.antt =====
-- `usbFunctionRead` and `usbFunctionWrite` of Firmware/AVRUSBLPT/main.c: transfers from and to the
-- EEPROM of the microcontroller in chunks.
use lpt_to_usb_adapter.Base.{
  ℕ, zero, suc, ◌+◌, ◌-◌, ◌<◌, ◌≡◌, ◌∙◌, refl, true, false, List, [], ◌∷◌, length, take, ltb, ◌==◌,
  if◌then◌else◌, u8, arith,
}

-- `currentAddress`, `bytesRemaining`, and the EEPROM.
pub record Transfer : Type 0 where
  pub current_address : ℕ
  pub bytes_remaining : ℕ
  pub eeprom : ℕ → ℕ

-- `eeprom_read_block`
abbrev pub eeprom_read_block : (ℕ → ℕ) → ℕ → ℕ → List ℕ
eeprom_read_block memory address zero = []
eeprom_read_block memory address (suc n) = memory address ∷ eeprom_read_block memory (address + 1) n

abbrev pub store : (ℕ → ℕ) → ℕ → ℕ → ℕ → ℕ
store memory address byte a = if a == address then byte else memory a

-- `eeprom_write_block`
unfoldable pub eeprom_write_block : (ℕ → ℕ) → ℕ → List ℕ → ℕ → ℕ
eeprom_write_block memory address [] = memory
eeprom_write_block memory address (b ∷ bytes) =
    eeprom_write_block (store memory address b) (address + 1) bytes

-- `usbFunctionRead`: the bytes that are put into `data`.
unfoldable pub usb_function_read : ℕ → Transfer → List ℕ × Transfer
usb_function_read len t =
    let n = if ltb t.bytes_remaining len then t.bytes_remaining else len in
    (
      eeprom_read_block t.eeprom t.current_address n,
      record t {
        current_address = u8 (t.current_address + n);
        bytes_remaining = t.bytes_remaining - n;
      },
    )

-- `usbFunctionWrite`
unfoldable pub usb_function_write : List ℕ → Transfer → ℕ × Transfer
usb_function_write bytes t =
    let n = if ltb t.bytes_remaining (length bytes) then t.bytes_remaining else length bytes in
    if t.bytes_remaining == 0 then (1, t) else (
      if t.bytes_remaining - n == 0 then 1 else 0,
      record t {
        current_address = u8 (t.current_address + n);
        bytes_remaining = t.bytes_remaining - n;
        eeprom = eeprom_write_block t.eeprom t.current_address (take n bytes);
      },
    )

take-length : (bytes : List ℕ) → take (length bytes) bytes ≡ bytes
take-length [] = refl
take-length (b ∷ bytes) = rw (take-length bytes) refl

-- What lies below a block stays.
write_block-below :
    (bytes : List ℕ) (memory : ℕ → ℕ) (address a : ℕ)
    → a < address
    → eeprom_write_block memory address bytes a ≡ memory a
unfolding eeprom_write_block
write_block-below [] memory address a h = refl
write_block-below (b ∷ bytes) memory address a h =
    let other : (a == address) ≡ false = ground arith in
    write_block-below bytes (store memory address b) (address + 1) a (omega arith) ∙ rw other refl

read_block-write_block :
    (bytes : List ℕ) (memory : ℕ → ℕ) (address : ℕ)
    → eeprom_read_block (eeprom_write_block memory address bytes) address (length bytes) ≡ bytes
unfolding eeprom_write_block
read_block-write_block [] memory address = refl
read_block-write_block (b ∷ bytes) memory address =
    let same : (address == address) ≡ true = ground arith in
    let first =
      write_block-below bytes (store memory address b) (address + 1) address (omega arith) in
    rw (first, same, read_block-write_block bytes (store memory address b) (address + 1)) refl

-- A chunk that is not empty and a whole transfer is reported as the last one, and a transfer that
-- then reads as many bytes from the same address gets it back and is finished.
usb_function_read-usb_function_write :
    (bytes : List ℕ) (t : Transfer)
    → 0 < length bytes
    → t.bytes_remaining ≡ length bytes
    → let (last, t') = usb_function_write bytes t in
      let again = record t' {
        current_address = t.current_address;
        bytes_remaining = t.bytes_remaining;
      } in
      let (got, t'') = usb_function_read (length bytes) again in
      (last ≡ 1) × (got ≡ bytes) × (t''.bytes_remaining ≡ 0)
unfolding usb_function_read usb_function_write
usb_function_read-usb_function_write bytes t some_bytes whole =
    let n = length bytes in
    let full : ltb n n ≡ false = ground arith in
    let more : (n == 0) ≡ false = ground arith in
    let done : (n - n == 0) ≡ true = ground arith in
    rw (whole, full, more, done, take-length bytes)
      (refl, read_block-write_block bytes t.eeprom t.current_address, omega arith)
