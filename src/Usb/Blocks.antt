-- ===== src/Usb/Blocks.antt =====
-- What the reading of descriptors in LptToUsbAdapter/UsbLptLib/UsbWrappers.c takes and gives back.
use lpt_to_usb_adapter.Base.{
  ℕ, ◌+◌, ◌*◌, ◌≤◌, ◌≡◌, Option, none, some, List, [], ◌∷◌, length, arith,
}
use lpt_to_usb_adapter.Usb.Api.{Api, Host}
use lpt_to_usb_adapter.Usb.Setup.{SetupApi, request_size}
use lpt_to_usb_adapter.Usb.Strings.{get_string_descriptor}
use lpt_to_usb_adapter.Usb.Config.{get_config_descriptor, total_length, config_size}
use lpt_to_usb_adapter.Usb.Leaks.{Balanced}

abbrev pub count {ℓ} : {A : Type ℓ} → Option A → ℕ
count none = 0
count (some a) = 1

-- The first and the last element.
abbrev pub ends {ℓ} : {A : Type ℓ} → List A → List A
ends [] = []
ends (x ∷ []) = x ∷ []
ends (x ∷ y ∷ []) = x ∷ y ∷ []
ends (x ∷ y ∷ z ∷ zs) = ends (x ∷ z ∷ zs)

module _ {W : Type 0} (api : Api W) (setup : SetupApi W) where
  pub get_string_descriptor-Balanced :
      (hub connection_index descriptor_index language : ℕ) (s : Host W)
      → let (r, s') =
          get_string_descriptor api setup hub connection_index descriptor_index language s in
        Balanced (2 * count r) 0 0 s s'
  unfolding get_string_descriptor
  get_string_descriptor-Balanced hub connection_index descriptor_index language s = ground arith

  -- A configuration descriptor that is returned is whole: its own length is that of the buffer
  -- behind the request, and at least that of the fixed part; it holds one block, and a failure
  -- holds none.
  pub get_config_descriptor-whole :
      (hub connection_index descriptor_index : ℕ) (s : Host W)
      → let (r, s') = get_config_descriptor api setup hub connection_index descriptor_index s in
        Balanced (count r) 0 0 s s'
        × ((buffer : List ℕ)
            → r ≡ some buffer
            → (length buffer ≡ request_size + total_length buffer)
              × (config_size ≤ total_length buffer))
  unfolding get_config_descriptor
  get_config_descriptor-whole hub connection_index descriptor_index s =
      (ground arith, λ buffer e. ground (arith, e))
