-- ===== src/UsbLpt/Blocks.antt =====
-- The blocks into which LptToUsbAdapter/UsbLptLib/UsbLptLib.c cuts a firmware image.
use native.Mathlib.Decide.{dec_le}
use lpt_to_usb_adapter.Base.{
  length-drop, length-take, take-append-drop, take-min, drop-drop, drop_all, ◌⊎◌, ℕ, ◌+◌, ◌-◌, ◌≤◌,
  ◌<◌, ◌≡◌, refl, sym, List, [], ◌∷◌, ◌++◌, length, take, drop, arith, u32, le32, min, inl, inr,
}
use lpt_to_usb_adapter.UsbLpt.Command

-- The commands of a log are blocks of at most `size` bytes, none of them empty, that cover the
-- firmware in order from an address on.
abbrev pub Loads : ℕ → ℕ → List ℕ → List (List ℕ) → Type 0
Loads size address firmware [] = firmware ≡ []
Loads size address firmware (cmd ∷ cmds) =
    (chunk : List ℕ) × (rest : List ℕ) × (cmd ≡ Command.dfu_ldblock ∷ (le32 (u32 address) ++ chunk))
    × (firmware ≡ chunk ++ rest)
    × (0 < length chunk)
    × (length chunk ≤ size)
    × Loads size (address + length chunk) rest cmds

Loads-nil : (size a b : ℕ) (cmds : List (List ℕ)) → Loads size a [] cmds → Loads size b [] cmds
Loads-nil size a b [] h = refl
Loads-nil size a b (cmd ∷ cmds) ([], rest, _, _, pos, _, _) = absurd (omega arith)
Loads-nil size a b (cmd ∷ cmds) (x ∷ xs, rest, _, e, _, _, _) = cc

-- A log goes on from another address, if nothing is left to load.
pub Loads-next :
    (size a b : ℕ) (rest : List ℕ) (cmds : List (List ℕ))
    → (rest ≡ []) ⊎ (a ≡ b)
    → Loads size a rest cmds
    → Loads size b rest cmds
Loads-next size a b rest cmds (inl empty) loads =
    rw empty (Loads-nil size a b cmds (rw empty at loads))
Loads-next size a b rest cmds (inr same) loads = rw (← same) loads

-- The first block of what is left, and what is left behind it.
module _ (firmware : List ℕ) (size offset : ℕ) where
  abbrev pub chunk : List ℕ
  chunk = take (min (length firmware - offset) size) (drop offset firmware)

  pub chunk_rest : drop offset firmware ≡ chunk ++ drop (offset + size) firmware
  chunk_rest =
      let left = drop offset firmware in
      let e : length left ≡ length firmware - offset = length-drop offset firmware in
      rw (← e, take-min size left, ← drop-drop offset size firmware)
        (sym (take-append-drop size left))

  pub length-chunk : length chunk ≡ min (length firmware - offset) size
  length-chunk = omega (
    arith,
    length-take (min (length firmware - offset) size) (drop offset firmware),
    length-drop offset firmware,
  )

  pub next_address :
      (base : ℕ)
      → offset < length firmware
      → (drop (offset + size) firmware ≡ [])
        ⊎ (base + (offset + size) ≡ base + offset + length chunk)
  next_address base more = elim (dec_le (offset + size) (length firmware)) [
    | yes whole ↦ inr (omega (arith, length-chunk))
    | no last ↦ inl (drop_all (offset + size) firmware (omega arith))
  ]
