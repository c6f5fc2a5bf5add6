-- ===== src/Injector/Splitting.antt =====
-- The list of bypassed ports that `LoadSettings` of LptToUsbAdapter/LptPatchInjector/CommonCode.c
-- reads from a text.
use lpt_to_usb_adapter.Base.{ℕ, ◌^◌, ◌<◌, ◌≡◌, Bool, false, List, [], ◌∷◌, ◌++◌}
use lpt_to_usb_adapter.Injector.LoadSettings.{is_delimiter}

-- All the characters are blanks or commas, or none of them is.
unfoldable pub AllDelimit : Bool → List ℕ → Type 0
AllDelimit b [] = Unit {0}
AllDelimit b (c ∷ cs) = (is_delimiter c ≡ b) × AllDelimit b cs

-- How numbers are written: without blanks and commas, and such that ports are read back; of a
-- number that does not fit its result `strtoul` may return another one.
pub record IsWriting (strtoul : List ℕ → ℕ) (write : ℕ → List ℕ) : Type 0 where
  pub first : ℕ → ℕ
  pub others : ℕ → List ℕ
  pub not_empty : (n : ℕ) → write n ≡ first n ∷ others n
  pub whole : (n : ℕ) → AllDelimit false (write n)
  pub read_back : (n : ℕ) → n < 2 ^ 16 → strtoul (write n) ≡ n

-- Numbers with a separator before each.
unfoldable pub separated : (ℕ → List ℕ) → List ℕ → List ℕ → List ℕ
separated write separator [] = []
separated write separator (n ∷ ns) = separator ++ (write n ++ separated write separator ns)

-- Numbers with a separator between them.
unfoldable pub listed : (ℕ → List ℕ) → List ℕ → List ℕ → List ℕ
listed write separator [] = []
listed write separator (n ∷ ns) = write n ++ separated write separator ns

unfoldable pub AllPorts : List ℕ → Type 0
AllPorts [] = Unit {0}
AllPorts (n ∷ ns) = (n < 2 ^ 16) × AllPorts ns
