-- ===== src/Usb/Chains.antt =====
-- The chains of strings that `GetStringDescriptors` of LptToUsbAdapter/UsbLptLib/UsbWrappers.c
-- links.
use mathlib.Core.List.{append_assoc, append-nil}
use lpt_to_usb_adapter.Base.{
  ℕ, ◌*◌, ◌≡◌, ◌∙◌, refl, sym, ap, Option, none, some, List, [], ◌∷◌, ◌++◌, length, arith,
  Option-cases, inl, inr,
}
use lpt_to_usb_adapter.Usb.Api.{Api, Host, M}
use lpt_to_usb_adapter.Usb.Setup.{SetupApi}
use lpt_to_usb_adapter.Usb.Strings.{
  UsbString, get_string_descriptor, link, link_strings, get_string_descriptors,
}
use lpt_to_usb_adapter.Usb.Leaks.{Balanced}
use lpt_to_usb_adapter.Usb.Blocks.{ends, get_string_descriptor-Balanced}

abbrev pub consed {ℓ} : {A : Type ℓ} → Option A → List A → List A
consed none xs = xs
consed (some x) xs = x ∷ xs

ends-append : (xs : List UsbString) (x y : UsbString) → ends (x ∷ (xs ++ y ∷ [])) ≡ x ∷ y ∷ []
ends-append [] x y = refl
ends-append (z ∷ []) x y = refl
ends-append (z ∷ w ∷ xs) x y = ends-append (w ∷ xs) x y

link-ends :
    (found : List UsbString) (y : UsbString) → link (ends found) (some y) ≡ ends (found ++ y ∷ [])
link-ends [] y = refl
link-ends (x ∷ []) y = refl
link-ends (x ∷ z ∷ []) y = refl
link-ends (x ∷ z ∷ w ∷ xs) y =
    link-ends (x ∷ w ∷ xs) y ∙ (ends-append (w ∷ xs) x y ∙ sym (ends-append (z ∷ w ∷ xs) x y))

module _ {W : Type 0} (api : Api W) (setup : SetupApi W)
    (hub connection_index descriptor_index : ℕ) where
  -- The strings that the hub gives, all of them, in the order of the languages.
  unfoldable pub retrieved : List ℕ → M W (List UsbString)
  retrieved [] s = ([], s)
  retrieved (language ∷ languages) s =
      let (r, s₁) =
        get_string_descriptor api setup hub connection_index descriptor_index language s in
      let (rest, s₂) = retrieved languages s₁ in (consed r rest, s₂)

  link_strings-ends :
      (languages : List ℕ) (before : List UsbString) (s : Host W)
      → link_strings api setup hub connection_index descriptor_index languages (ends before) s
        ≡ (let (found, s') = retrieved languages s in (ends (before ++ found), s'))
  unfolding link_strings retrieved
  link_strings-ends [] before s = rw (append-nil before) refl
  link_strings-ends (language ∷ languages) before s =
      let (r, s₁) =
        get_string_descriptor api setup hub connection_index descriptor_index language s in
      elim (Option-cases r) [
        | inl lost ↦ rw lost (link_strings-ends languages before s₁)
        | inr (y, got) ↦
            rw (got, link-ends before y, link_strings-ends languages (before ++ y ∷ []) s₁)
              (ap (λ l. (ends l, (retrieved languages s₁).1))
                (append_assoc before (y ∷ []) (retrieved languages s₁).0))
      ]

  retrieved-Balanced :
      (languages : List ℕ) (s : Host W)
      → let (found, s') = retrieved languages s in Balanced (2 * length found) 0 0 s s'
  unfolding retrieved
  retrieved-Balanced [] s = omega arith
  retrieved-Balanced (language ∷ languages) s =
      let (r, s₁) =
        get_string_descriptor api setup hub connection_index descriptor_index language s in
      ground (
        arith,
        get_string_descriptor-Balanced api setup hub connection_index descriptor_index language s,
        retrieved-Balanced languages s₁,
      )

  -- Of the strings that the hub gives, the chain that is returned holds the first one and the last
  -- one, while the two blocks of each of them stay taken: with three languages and more, the
  -- strings between can be neither read nor given back.
  pub get_string_descriptors-ends :
      (languages : List ℕ) (s : Host W)
      → let (strings, s') =
          get_string_descriptors api setup hub connection_index descriptor_index languages s in
        (found : List UsbString) × (found ≡ (retrieved languages s).0)
        × (strings ≡ ends found)
        × Balanced (2 * length found) 0 0 s s'
  unfolding get_string_descriptors
  get_string_descriptors-ends languages s = (
    (retrieved languages s).0,
    refl,
    ap (λ p. p.0) (link_strings-ends languages [] s),
    rw (link_strings-ends languages [] s) (retrieved-Balanced languages s),
  )
