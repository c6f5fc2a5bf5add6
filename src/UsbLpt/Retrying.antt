-- ===== src/UsbLpt/Retrying.antt =====
-- What sending a block, again if it fails, leaves in the flash of a boot loader; about
-- LptToUsbAdapter/UsbLptLib/UsbLptLib.c.
use lpt_to_usb_adapter.Base.{
  ℕ, zero, suc, ◌+◌, ◌^◌, ◌≤◌, ◌<◌, ◌≡◌, refl, sym, ap, ◌∙◌, ◌⊎◌, inl, inr, Bool, true, some,
  Bool-cases, Option-cases, List, [], ◌∷◌, ◌++◌, length, ==_iff, arith, le32, bytes_at,
}
use lpt_to_usb_adapter.Usb.Api.{Api, Host}
use lpt_to_usb_adapter.Usb.Device.{
  overlay, write_pipe_default_interface, read_pipe_default_interface,
}
use lpt_to_usb_adapter.UsbLpt.Command
use lpt_to_usb_adapter.UsbLpt.Commands.{UsbLpt, bulk_cmd, pipe_in, pipe_out}
use lpt_to_usb_adapter.UsbLpt.Dfu.{accepted, send_firmware, retry}

-- The command that loads a block.
abbrev pub block_command : ℕ → List ℕ → List ℕ
block_command a bytes = Command.dfu_ldblock ∷ (le32 a ++ bytes)

-- A boot loader: only commands change the flash, a block command no byte outside its block, and the
-- closing command none. If a block command went out whole and is answered by one zero byte, then
-- the block holds its bytes; every command may be refused, and every reply may be lost.
pub record IsBootLoader {W : Type 0} (api : Api W) (flash : W → ℕ → ℕ) : Type 0 where
  pub malloc_kept : (n : ℕ) (w : W) (b : ℕ) → flash (api.malloc n w).1 b ≡ flash w b
  pub read_kept : (h n : ℕ) (w : W) (b : ℕ) → flash (api.read_pipe h pipe_in n w).1 b ≡ flash w b
  pub block_kept :
      (h a : ℕ) (bytes : List ℕ) (w : W) (b : ℕ)
      → a < 2 ^ 32
      → (b < a) ⊎ (a + length bytes ≤ b)
      → flash (api.write_pipe h pipe_out (block_command a bytes) w).1 b ≡ flash w b
  pub finalize_kept :
      (h : ℕ) (bytes : List ℕ) (w : W) (b : ℕ)
      → flash (api.write_pipe h pipe_out (Command.dfu_finalize ∷ bytes) w).1 b ≡ flash w b
  pub block_written :
      (h a : ℕ) (bytes : List ℕ) (w : W)
      → a < 2 ^ 32
      → (api.write_pipe h pipe_out (block_command a bytes) w).0
        ≡ some (length (block_command a bytes))
      → (api.read_pipe h pipe_in 1 (api.write_pipe h pipe_out (block_command a bytes) w).1).0
        ≡ some (0 ∷ [])
      → bytes_at (flash (api.write_pipe h pipe_out (block_command a bytes) w).1) a (length bytes)
        ≡ bytes

-- A reply that is accepted is one zero byte.
one_zero :
    (bytes : List ℕ) (result : ℕ)
    → accepted (some (overlay bytes (result ∷ []), length bytes)) ≡ true
    → bytes ≡ 0 ∷ []
one_zero [] result e = ground (arith, e)
one_zero (x ∷ []) result e = let z : x ≡ 0 = ground (arith, e) in rw z refl
one_zero (x ∷ y ∷ bytes) result e = ground (arith, e)

module _ {W : Type 0} (api : Api W) (flash : W → ℕ → ℕ) (h : IsBootLoader api flash) where
  send_firmware-kept :
      (dev : UsbLpt) (a : ℕ) (bytes : List ℕ) (s : Host W) (b : ℕ)
      → a < 2 ^ 32
      → (b < a) ⊎ (a + length bytes ≤ b)
      → flash (send_firmware api dev a bytes s).1.world b ≡ flash s.world b
  unfolding send_firmware bulk_cmd write_pipe_default_interface read_pipe_default_interface
  send_firmware-kept dev a bytes s b small out =
      grind (arith, h.malloc_kept, h.read_kept, h.block_kept)

  pub bytes_at_kept :
      (m m' : ℕ → ℕ) (a n : ℕ)
      → ((b : ℕ) → a ≤ b → b < a + n → m' b ≡ m b)
      → bytes_at m' a n ≡ bytes_at m a n
  unfolding bytes_at
  bytes_at_kept m m' a zero same = refl
  bytes_at_kept m m' a (suc n) same =
      rw
        (
          same a (omega arith) (omega arith),
          bytes_at_kept m m' (suc a) n
              (λ b low high. same b (omega (arith, low)) (omega (arith, high))),
        )
        refl

  block_sent :
      (usb a r : ℕ) (bytes : List ℕ) (w : W)
      → a < 2 ^ 32
      → (api.write_pipe usb pipe_out (block_command a bytes) w).0
        ≡ some (length (block_command a bytes))
      → (reply : List ℕ)
      → (api.read_pipe usb pipe_in 1 (api.write_pipe usb pipe_out (block_command a bytes) w).1).0
        ≡ some reply
      → accepted (some (overlay reply (r ∷ []), length reply)) ≡ true
      → bytes_at
          (flash
            (api.read_pipe usb pipe_in 1
              (api.write_pipe usb pipe_out (block_command a bytes) w).1).1)
          a
          (length bytes)
        ≡ bytes
  block_sent usb a r bytes w small whole reply arrived ok =
      let w' = (api.write_pipe usb pipe_out (block_command a bytes) w).1 in
      let zero_reply = arrived ∙ ap some (one_zero reply r ok) in
      bytes_at_kept (flash w') (flash (api.read_pipe usb pipe_in 1 w').1) a (length bytes)
        (λ b low high. h.read_kept usb 1 w' b)
      ∙ h.block_written usb a bytes w small whole zero_reply

  send_firmware-written :
      (dev : UsbLpt) (a : ℕ) (bytes : List ℕ) (s : Host W)
      → a < 2 ^ 32
      → (send_firmware api dev a bytes s).0 ≡ true
      → bytes_at (flash (send_firmware api dev a bytes s).1.world) a (length bytes) ≡ bytes
  unfolding send_firmware bulk_cmd write_pipe_default_interface read_pipe_default_interface
  send_firmware-written dev a bytes s small e =
      let usb = dev.usb_handles.dev_winusb_handle in
      let (got, w₁) = api.malloc (4 + length bytes) s.world in
      let (got', w₂) = api.malloc (1 + length (le32 a ++ bytes)) w₁ in
      let (sent, w₃) = api.write_pipe usb pipe_out (block_command a bytes) w₂ in
      let (arrived, w₄) = api.read_pipe usb pipe_in 1 w₃ in
      elim (Bool-cases got) [
        | inr nothing ↦ absurd (ground (arith, e, nothing))
        | inl gave ↦ elim (Bool-cases got') [
          | inr nothing ↦ absurd (ground (arith, e, gave, nothing))
          | inl gave' ↦ elim (Option-cases sent) [
            | inl lost ↦ absurd (ground (arith, e, gave, gave', lost))
            | inr (n, went) ↦ elim (Option-cases arrived) [
              | inl lost ↦ absurd (ground (arith, e, gave, gave', went, lost))
              | inr (reply, came) ↦
                  let same : n ≡ length (block_command a bytes) =
                    ground (arith, e, gave, gave', went, came) in
                  let ok : accepted (some (overlay reply (api.stack_byte w₁ ∷ []), length reply))
                      ≡ true =
                    ground (arith, e, gave, gave', went, came) in
                  let done =
                    block_sent usb a (api.stack_byte w₁) bytes w₂ small (went ∙ ap some same) reply
                      came ok in
                  let l = length (block_command a bytes) in
                  rw (gave, gave', went, same, (==_iff l l).1 refl) done
            ]
          ]
        ]
      ]

  pub retry-kept :
      (tries : ℕ) (dev : UsbLpt) (a : ℕ) (bytes : List ℕ) (s : Host W) (b : ℕ)
      → a < 2 ^ 32
      → (b < a) ⊎ (a + length bytes ≤ b)
      → flash (retry tries (send_firmware api dev a bytes) s).1.world b ≡ flash s.world b
  unfolding retry
  retry-kept zero dev a bytes s b small out = refl
  retry-kept (suc tries) dev a bytes s b small out =
      let s' = (send_firmware api dev a bytes s).1 in
      let first = send_firmware-kept dev a bytes s b small out in
      let rest = retry-kept tries dev a bytes s' b small out in
      elim (Bool-cases (send_firmware api dev a bytes s).0) [
        | inl done ↦ rw (retry, done) first
        | inr failed ↦ rw (retry, failed) (rest ∙ first)
      ]

  pub retry-written :
      (tries : ℕ) (dev : UsbLpt) (a : ℕ) (bytes : List ℕ) (s : Host W)
      → a < 2 ^ 32
      → (retry tries (send_firmware api dev a bytes) s).0 ≡ true
      → bytes_at (flash (retry tries (send_firmware api dev a bytes) s).1.world) a (length bytes)
        ≡ bytes
  unfolding retry
  retry-written zero dev a bytes s small e = ground (arith, e)
  retry-written (suc tries) dev a bytes s small e =
      let s' = (send_firmware api dev a bytes s).1 in
      elim (Bool-cases (send_firmware api dev a bytes s).0) [
        | inl done ↦ rw (retry, done) (send_firmware-written dev a bytes s small done)
        | inr failed ↦
            let next : retry (suc tries) (send_firmware api dev a bytes) s
                ≡ retry tries (send_firmware api dev a bytes) s' =
              rw (retry, failed) refl in
            rw (retry, failed)
              (retry-written tries dev a bytes s' small
                (ap (λ (r : Bool × Host W). r.0) (sym next) ∙ e))
      ]
