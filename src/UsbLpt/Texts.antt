-- ===== src/UsbLpt/Texts.antt =====
-- The texts that `UsbLpt_GetListInternal` of LptToUsbAdapter/UsbLptLib/UsbLptLib.c copies.
use lpt_to_usb_adapter.Base.{
  ℕ, zero, suc, ◌≡◌, refl, ap, ◌∙◌, List, [], ◌∷◌, ◌++◌, length, take, length-take, min, replicate,
  arith, ◌==◌, Bool-cases, inl, inr,
}
use lpt_to_usb_adapter.Usb.Parsing.{Lacks}
use lpt_to_usb_adapter.UsbLpt.Listing.{wide_string, copy_text, text_size}

pub wide_string-Lacks : (text : List ℕ) → Lacks 0 (wide_string text)
wide_string-Lacks [] = tt
wide_string-Lacks (c ∷ cs) = elim (Bool-cases (c == 0)) [
  | inl zero_char ↦ rw zero_char tt
  | inr other ↦ rw other ((λ e. ground (arith, e)), wide_string-Lacks cs)
]

wide_string-padded :
    (n m : ℕ) (xs : List ℕ) → Lacks 0 xs → wide_string (take n (xs ++ replicate m 0)) ≡ take n xs
wide_string-padded zero m xs lacks = refl
wide_string-padded (suc n) zero [] lacks = refl
wide_string-padded (suc n) (suc m) [] lacks = refl
wide_string-padded (suc n) m (x ∷ xs) (other, lacks) =
    rw (wide_string-padded n m xs lacks) (ground (arith, other))

-- The path by which an adapter is opened is the enumerated one up to the size of its buffer: of a
-- longer one 128 characters are left.
wide_string-copy_text :
    (text : List ℕ)
    → let path = wide_string (copy_text text) in
      (path ≡ take text_size (wide_string text))
      × (length path ≡ min text_size (length (wide_string text)))
wide_string-copy_text text =
    let cut = wide_string-padded text_size text_size (wide_string text) (wide_string-Lacks text) in
    (cut, ap length cut ∙ length-take text_size (wide_string text))
