-- ===== src/UsbLpt/Flashing.antt =====
-- What `UsbLpt_DFU_LoadFirmware` of LptToUsbAdapter/UsbLptLib/UsbLptLib.c leaves in the flash of a
-- boot loader that may refuse commands and lose replies.
use mathlib.Core.Path.{subst}
use lpt_to_usb_adapter.Base.{
  ℕ, zero, suc, ◌+◌, ◌-◌, ◌^◌, ◌≤◌, ◌<◌, ◌≡◌, refl, sym, ap, ◌∙◌, ◌⊎◌, inl, inr, Bool, true, false,
  Option, none, some, Bool-cases, List, length, drop, ltb, arith, u32, bytes_at, bytes_at-append,
  drop_all,
}
use lpt_to_usb_adapter.Usb.Api.{Api, Host}
use lpt_to_usb_adapter.Usb.Device.{write_pipe_default_interface, read_pipe_default_interface}
use lpt_to_usb_adapter.UsbLpt.Commands.{UsbLpt, bulk_cmd}
use lpt_to_usb_adapter.UsbLpt.Dfu.{
  erase_flash, send_firmware, finalize, retry, send_blocks, finish, load_firmware,
}
use lpt_to_usb_adapter.UsbLpt.Blocks.{chunk, chunk_rest, length-chunk}
use lpt_to_usb_adapter.UsbLpt.Retrying.{IsBootLoader, bytes_at_kept, retry-kept, retry-written}

module _ {W : Type 0} (api : Api W) (flash : W → ℕ → ℕ) (h : IsBootLoader api flash) where
  -- The loop changes nothing below the address that it starts from.
  send_blocks-kept :
      (fuel : ℕ) (dev : UsbLpt) (base : ℕ) (firmware : List ℕ) (size offset : ℕ) (s : Host W)
      (b : ℕ)
      → base + length firmware + size ≤ 2 ^ 32
      → b < base + offset
      → flash (send_blocks api fuel dev base firmware size offset s).1.world b ≡ flash s.world b
  unfolding send_blocks
  send_blocks-kept zero dev base firmware size offset s b fits below = refl
  send_blocks-kept (suc fuel) dev base firmware size offset s b fits below =
      let block = chunk firmware size offset in
      let (success, s') = retry 3 (send_firmware api dev (u32 (base + offset)) block) s in
      elim (Bool-cases (ltb offset (length firmware))) [
        | inr done ↦ rw done refl
        | inl more ↦
            let a : u32 (base + offset) ≡ base + offset = ground (arith, more, fits) in
            let first =
              retry-kept api flash h 3 dev (u32 (base + offset)) block s b (omega arith)
                (inl (omega (arith, a))) in
            let next : u32 (offset + size) ≡ offset + size = ground (arith, more, fits) in
            let rest =
              send_blocks-kept fuel dev base firmware size (u32 (offset + size)) s' b fits
                (omega (arith, next)) in
            elim (Bool-cases success) [
              | inl sent ↦ rw (more, sent) (rest ∙ first)
              | inr refused ↦ rw (more, refused) first
            ]
      ]

  -- A list at two addresses that differ only if the list is empty.
  bytes_at-move : (m : ℕ → ℕ) (a b n : ℕ) → (n ≡ 0) ⊎ (a ≡ b) → bytes_at m a n ≡ bytes_at m b n
  unfolding bytes_at
  bytes_at-move m a b n (inl empty) = rw empty refl
  bytes_at-move m a b n (inr same) = rw same refl

  bytes_at-blocks :
      (m : ℕ → ℕ) (base : ℕ) (firmware : List ℕ) (size offset : ℕ)
      → offset < length firmware
      → bytes_at m (base + offset) (length (chunk firmware size offset))
        ≡ chunk firmware size offset
      → bytes_at m (base + (offset + size)) (length firmware - (offset + size))
        ≡ drop (offset + size) firmware
      → bytes_at m (base + offset) (length firmware - offset) ≡ drop offset firmware
  bytes_at-blocks m base firmware size offset more block rest =
      let k = length (chunk firmware size offset) in
      let left = length firmware - (offset + size) in
      let c = length-chunk firmware size offset in
      let n : length firmware - offset ≡ k + left = omega (arith, c) in
      let near : (left ≡ 0) ⊎ (base + offset + k ≡ base + (offset + size)) =
        ground (arith, c, more) in
      ap (bytes_at m (base + offset)) n
      ∙ bytes_at-append m (base + offset) k left
      ∙ rw (block, bytes_at-move m (base + offset + k) (base + (offset + size)) left near, rest)
          (sym (chunk_rest firmware size offset))

  send_blocks-flashed :
      (fuel : ℕ) (dev : UsbLpt) (base : ℕ) (firmware : List ℕ) (size offset : ℕ) (s : Host W)
      → base + length firmware + size ≤ 2 ^ 32
      → (send_blocks api fuel dev base firmware size offset s).0 ≡ some true
      → bytes_at
          (flash (send_blocks api fuel dev base firmware size offset s).1.world)
          (base + offset)
          (length firmware - offset)
        ≡ drop offset firmware
  unfolding send_blocks bytes_at
  send_blocks-flashed zero dev base firmware size offset s fits e = ground (arith, e)
  send_blocks-flashed (suc fuel) dev base firmware size offset s fits e =
      let block = chunk firmware size offset in
      let (success, s') = retry 3 (send_firmware api dev (u32 (base + offset)) block) s in
      elim (Bool-cases (ltb offset (length firmware))) [
        | inr done ↦
            let left : length firmware - offset ≡ 0 = ground (arith, done) in
            rw (left, drop_all offset firmware (ground (arith, done))) refl
        | inl more ↦ elim (Bool-cases success) [
          | inr refused ↦
              let turn : send_blocks api (suc fuel) dev base firmware size offset s
                  ≡ (some false, s') =
                rw (send_blocks, more, refused) refl in
              let e' : some false ≡ some true =
                ap (λ (r : Option Bool × Host W). r.0) (sym turn) ∙ e in
              absurd (ground (arith, e'))
          | inl sent ↦
              let a : u32 (base + offset) ≡ base + offset = ground (arith, more, fits) in
              let next : u32 (offset + size) ≡ offset + size = ground (arith, more, fits) in
              let loop = send_blocks api fuel dev base firmware size (u32 (offset + size)) s' in
              let turn : send_blocks api (suc fuel) dev base firmware size offset s ≡ loop =
                rw (send_blocks, more, sent) refl in
              let rest =
                send_blocks-flashed fuel dev base firmware size (u32 (offset + size)) s' fits
                  (ap (λ (r : Option Bool × Host W). r.0) (sym turn) ∙ e) in
              let written =
                retry-written api flash h 3 dev (u32 (base + offset)) block s (omega arith) sent in
              let m = flash loop.1.world in
              let below : (b : ℕ)
                  → base + offset ≤ b
                  → b < base + offset + length block
                  → m b ≡ flash s'.world b =
                λ b low high.
                  send_blocks-kept fuel dev base firmware size (u32 (offset + size)) s' b fits
                    (omega (arith, next, high, length-chunk firmware size offset)) in
              let held =
                bytes_at_kept api flash h (flash s'.world) m (base + offset) (length block) below
                ∙ ap (λ (k : ℕ). bytes_at (flash s'.world) k (length block)) (sym a)
                ∙ written in
              let others =
                ap (λ (k : ℕ). bytes_at m (base + k) (length firmware - k)) (sym next)
                ∙ rest
                ∙ ap (λ (k : ℕ). drop k firmware) next in
              subst
                (λ (t : Option Bool × Host W).
                  bytes_at (flash t.1.world) (base + offset) (length firmware - offset)
                  ≡ drop offset firmware)
                (sym turn)
                (bytes_at-blocks m base firmware size offset (ground (arith, more)) held others)
        ]
      ]

  finalize-kept :
      (dev : UsbLpt) (n : ℕ) (sha512 : List ℕ) (s : Host W) (b : ℕ)
      → flash (finalize api dev n sha512 s).1.world b ≡ flash s.world b
  unfolding finalize bulk_cmd write_pipe_default_interface read_pipe_default_interface
  finalize-kept dev n sha512 s b = grind (arith, h.malloc_kept, h.read_kept, h.finalize_kept)

  finish-flashed :
      (dev : UsbLpt) (base : ℕ) (firmware sha512 : List ℕ) (loaded : Option Bool) (s : Host W)
      → (loaded ≡ some true → bytes_at (flash s.world) base (length firmware) ≡ firmware)
      → (finish api dev (length firmware) sha512 loaded s).0 ≡ some true
      → bytes_at
          (flash (finish api dev (length firmware) sha512 loaded s).1.world)
          base
          (length firmware)
        ≡ firmware
  finish-flashed dev base firmware sha512 none s held e = ground (arith, e)
  finish-flashed dev base firmware sha512 (some false) s held e = ground (arith, e)
  finish-flashed dev base firmware sha512 (some true) s held e =
      let s' = (finalize api dev (length firmware) sha512 s).1 in
      bytes_at_kept api flash h (flash s.world) (flash s'.world) base (length firmware)
        (λ b low high. finalize-kept dev (length firmware) sha512 s b)
      ∙ held refl

  -- With a boot loader that may refuse commands and lose replies, if the update reports success,
  -- then the flash holds the whole firmware from its base address on. The
  -- addresses of the firmware and of one more block are below 2 ^ 32.
  pub load_firmware-flashed :
      (fuel : ℕ) (dev : UsbLpt) (base : ℕ) (firmware sha512 : List ℕ) (size : ℕ) (s : Host W)
      → base + length firmware + size ≤ 2 ^ 32
      → (load_firmware api fuel dev base firmware sha512 size s).0 ≡ some true
      → bytes_at
          (flash (load_firmware api fuel dev base firmware sha512 size s).1.world)
          base
          (length firmware)
        ≡ firmware
  unfolding load_firmware
  load_firmware-flashed fuel dev base firmware sha512 size s fits e =
      let (erased, s') = erase_flash api dev s in
      let (loaded, s'') = send_blocks api fuel dev base firmware size 0 s' in
      let blocks : loaded ≡ some true
          → bytes_at (flash s''.world) base (length firmware) ≡ firmware =
        λ done.
          let e1 : base ≡ base + 0 = omega arith in
          let e2 : length firmware ≡ length firmware - 0 = omega arith in
          ap (λ (k : ℕ). bytes_at (flash s''.world) k (length firmware)) e1
          ∙ ap (bytes_at (flash s''.world) (base + 0)) e2
          ∙ send_blocks-flashed fuel dev base firmware size 0 s' fits done in
      elim (Bool-cases erased) [
        | inr no_erase ↦
            let turn : load_firmware api fuel dev base firmware sha512 size s ≡ (some false, s') =
              rw (load_firmware, no_erase) refl in
            let e' : some false ≡ some true =
              ap (λ (r : Option Bool × Host W). r.0) (sym turn) ∙ e in
            absurd (ground (arith, e'))
        | inl erase ↦
            let turn : load_firmware api fuel dev base firmware sha512 size s
                ≡ finish api dev (length firmware) sha512 loaded s'' =
              rw (load_firmware, erase) refl in
            rw erase (
              finish-flashed dev base firmware sha512 loaded s'' blocks
                (ap (λ (r : Option Bool × Host W). r.0) (sym turn) ∙ e))
      ]
