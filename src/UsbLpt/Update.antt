-- ===== src/UsbLpt/Update.antt =====
-- `UsbLpt_DFU_LoadFirmware` of LptToUsbAdapter/UsbLptLib/UsbLptLib.c against a boot loader that
-- accepts every command.
use mathlib.Core.List.{append_assoc, append-nil}
use mathlib.Core.Path.{subst}
use native.Mathlib.Nat.{add-zero}
use lpt_to_usb_adapter.Base.{
  drop_all, ℕ, zero, suc, ◌+◌, ◌-◌, ◌^◌, ◌≤◌, ◌<◌, ◌≡◌, refl, sym, ap, ◌∙◌, Bool, true, some, List,
  [], ◌∷◌, ◌++◌, length, take, drop, arith, u32, le32, ltb, ==_iff, Bool-cases, inl, inr,
}
use lpt_to_usb_adapter.Usb.Api.{Api, Host, M}
use lpt_to_usb_adapter.Usb.Device.{
  UsbHandle, write_pipe_default_interface, read_pipe_default_interface,
}
use lpt_to_usb_adapter.UsbLpt.Command
use lpt_to_usb_adapter.UsbLpt.Commands.{UsbLpt, bulk_cmd, pipe_in, pipe_out}
use lpt_to_usb_adapter.UsbLpt.Dfu.{
  erase_flash, send_firmware, finalize, retry, send_blocks, load_firmware,
}
use lpt_to_usb_adapter.UsbLpt.Blocks.{
  Loads, Loads-next, chunk, chunk_rest, length-chunk, next_address,
}

-- A boot loader that accepts what it is sent: blocks are given, a command on the pipe goes whole
-- and is added to the log, and the reply is one zero byte.
pub record IsAccepting {W : Type 0} (api : Api W) (log : W → List (List ℕ)) : Type 0 where
  pub malloc_ok : (n : ℕ) (w : W) → (api.malloc n w).0 ≡ true
  pub malloc_log : (n : ℕ) (w : W) → log (api.malloc n w).1 ≡ log w
  pub write_ok :
      (h : ℕ) (bytes : List ℕ) (w : W) → (api.write_pipe h pipe_out bytes w).0 ≡ some (length bytes)
  pub write_log :
      (h : ℕ) (bytes : List ℕ) (w : W)
      → log (api.write_pipe h pipe_out bytes w).1 ≡ log w ++ bytes ∷ []
  pub read_ok : (h n : ℕ) (w : W) → (api.read_pipe h pipe_in n w).0 ≡ some (0 ∷ [])
  pub read_log : (h n : ℕ) (w : W) → log (api.read_pipe h pipe_in n w).1 ≡ log w

retry_first :
    {W : Type 0} (tries : ℕ) (step : M W Bool) (s : Host W)
    → (step s).0 ≡ true
    → retry (suc tries) step s ≡ (true, (step s).1)
unfolding retry
retry_first tries step s e = rw (e, retry)

module _ {W : Type 0} (api : Api W) (log : W → List (List ℕ)) (h : IsAccepting api log) where
  bulk_cmd-accepted :
      (handle : UsbHandle) (cmd b : ℕ) (bytes : List ℕ) (s : Host W)
      → let (r, s') = bulk_cmd api handle cmd bytes (some (b ∷ [], 1)) s in
        (r ≡ some (0 ∷ [], 1)) × (log s'.world ≡ log s.world ++ (cmd ∷ bytes) ∷ [])
  unfolding bulk_cmd write_pipe_default_interface read_pipe_default_interface
  bulk_cmd-accepted handle cmd b bytes s =
      let usb = handle.dev_winusb_handle in
      let (_, w₁) = api.malloc (1 + length bytes) s.world in
      let (_, w₂) = api.write_pipe usb pipe_out (cmd ∷ bytes) w₁ in
      rw
        (
          h.malloc_ok (1 + length bytes) s.world,
          h.write_ok usb (cmd ∷ bytes) w₁,
          (==_iff (length (cmd ∷ bytes)) (length (cmd ∷ bytes))).1 refl,
          h.read_ok usb 1 w₂,
        )
        (
          refl,
          h.read_log usb 1 w₂
              ∙ (h.write_log usb (cmd ∷ bytes) w₁
                  ∙ ap (λ l. l ++ (cmd ∷ bytes) ∷ []) (h.malloc_log (1 + length bytes) s.world)),
        )

  send_firmware-accepted :
      (dev : UsbLpt) (address : ℕ) (bytes : List ℕ) (s : Host W)
      → let (r, s') = send_firmware api dev address bytes s in
        (r ≡ true)
        × (log s'.world ≡ log s.world ++ (Command.dfu_ldblock ∷ (le32 address ++ bytes)) ∷ [])
  unfolding send_firmware
  send_firmware-accepted dev address bytes s =
      let (_, w) = api.malloc (4 + length bytes) s.world in
      let sent =
        bulk_cmd-accepted dev.usb_handles Command.dfu_ldblock (api.stack_byte w)
          (le32 address ++ bytes) (record s { world = w; allocated = s.allocated + 1 }) in
      rw (h.malloc_ok (4 + length bytes) s.world, sent.0)
        (
          refl,
          sent.1
              ∙ ap (λ l. l ++ (Command.dfu_ldblock ∷ (le32 address ++ bytes)) ∷ [])
                  (h.malloc_log (4 + length bytes) s.world),
        )

  retry-accepted :
      (dev : UsbLpt) (address : ℕ) (bytes : List ℕ) (s : Host W)
      → retry 3 (send_firmware api dev address bytes) s
        ≡ (true, (send_firmware api dev address bytes s).1)
  retry-accepted dev address bytes s =
      retry_first 2 (send_firmware api dev address bytes) s
        (send_firmware-accepted dev address bytes s).0

  send_blocks-Loads :
      (fuel : ℕ) (dev : UsbLpt) (base : ℕ) (firmware : List ℕ) (size offset : ℕ) (s : Host W)
      → 0 < size
      → length firmware + size ≤ 2 ^ 32
      → offset ≤ length firmware + size
      → length firmware - offset < fuel
      → let (r, s') = send_blocks api fuel dev base firmware size offset s in
        (cmds : List (List ℕ)) × (r ≡ some true)
        × (log s'.world ≡ log s.world ++ cmds)
        × Loads size (base + offset) (drop offset firmware) cmds
  unfolding send_blocks
  send_blocks-Loads zero dev base firmware size offset s pos fits below enough =
      absurd (omega arith)
  send_blocks-Loads (suc fuel) dev base firmware size offset s pos fits below enough =
      elim (Bool-cases (ltb offset (length firmware))) [
        | inl more ↦
            let block = chunk firmware size offset in
            let s' = (send_firmware api dev (u32 (base + offset)) block s).1 in
            let in_range : offset < length firmware = ground arith in
            let next : u32 (offset + size) ≡ offset + size = ground arith in
            let (cmds, r, l, loads) =
              send_blocks-Loads fuel dev base firmware size (u32 (offset + size)) s' pos fits
                (ground arith) (ground arith) in
            let first = send_firmware-accepted dev (u32 (base + offset)) block s in
            (
              (Command.dfu_ldblock ∷ (le32 (u32 (base + offset)) ++ block)) ∷ cmds,
              rw (more, retry-accepted dev (u32 (base + offset)) block s) r,
              rw (more, retry-accepted dev (u32 (base + offset)) block s)
                  (l ∙ (ap (λ x. x ++ cmds) first.1 ∙ append_assoc (log s.world) (_ ∷ []) cmds)),
              (
                block,
                drop (offset + size) firmware,
                refl,
                chunk_rest firmware size offset,
                omega (arith, length-chunk firmware size offset),
                omega (arith, length-chunk firmware size offset),
                Loads-next size (base + (offset + size)) (base + offset + length block)
                    (drop (offset + size) firmware) cmds
                    (next_address firmware size offset base (ground arith))
                    (subst (λ k. Loads size (base + k) (drop k firmware) cmds) next loads),
              ),
            )
        | inr done ↦ (
          [],
          rw done,
          rw done (sym (append-nil (log s.world))),
          drop_all offset firmware (ground arith),
        )
      ]

  -- Against a boot loader that accepts every command, with blocks of at least one byte, a
  -- firmware whose offsets fit 32 bits and fuel beyond its length, the update succeeds, and what
  -- it sent is the erase command, then blocks of at most the block size that cover the firmware
  -- in order from the base address on, then its length and SHA-512.
  pub load_firmware-Loads :
      (fuel : ℕ) (dev : UsbLpt) (base : ℕ) (firmware sha512 : List ℕ) (size : ℕ) (s : Host W)
      → 0 < size
      → length firmware + size ≤ 2 ^ 32
      → length firmware < fuel
      → let (r, s') = load_firmware api fuel dev base firmware sha512 size s in
        (cmds : List (List ℕ)) × (r ≡ some true)
        × (log s'.world
            ≡ log s.world
              ++ ((Command.dfu_erase ∷ [])
                  ∷ (cmds
                      ++ (Command.dfu_finalize ∷ (le32 (length firmware) ++ take 64 sha512)) ∷ [])))
        × Loads size base firmware cmds
  unfolding load_firmware erase_flash finalize
  load_firmware-Loads fuel dev base firmware sha512 size s pos fits enough =
      let erased =
        bulk_cmd-accepted dev.usb_handles Command.dfu_erase (api.stack_byte s.world) [] s in
      let s₁ =
        (bulk_cmd api dev.usb_handles Command.dfu_erase [] (some (api.stack_byte s.world ∷ [], 1))
          s).1 in
      let (cmds, r, l, loads) =
        send_blocks-Loads fuel dev base firmware size 0 s₁ pos fits (omega arith) (omega arith) in
      let s₂ = (send_blocks api fuel dev base firmware size 0 s₁).1 in
      let last = Command.dfu_finalize ∷ (le32 (length firmware) ++ take 64 sha512) in
      let done =
        bulk_cmd-accepted dev.usb_handles Command.dfu_finalize (api.stack_byte s₂.world)
          (le32 (length firmware) ++ take 64 sha512) s₂ in
      (
        cmds,
        rw (erased.0, r, done.0) refl,
        rw (erased.0, r)
            (done.1
              ∙ (ap (λ x. x ++ last ∷ []) l
                  ∙ (ap (λ x. (x ++ cmds) ++ last ∷ []) erased.1
                      ∙ (append_assoc (log s.world ++ (Command.dfu_erase ∷ []) ∷ []) cmds
                            (last ∷ [])
                          ∙ append_assoc (log s.world) ((Command.dfu_erase ∷ []) ∷ [])
                              (cmds ++ last ∷ []))))),
        subst (λ k. Loads size k firmware cmds) (add-zero base) loads,
      )
