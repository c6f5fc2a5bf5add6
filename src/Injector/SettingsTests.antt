-- ===== src/Injector/SettingsTests.antt =====
-- A concrete settings file of LptToUsbAdapter/LptPatchInjector/CommonCode.c.
use lpt_to_usb_adapter.Base.{
  length, ltb, ◌^◌, ◌-◌, drop, replicate, ℕ, ◌≡◌, refl, ap, Bool, true, false, ◌||◌, Option, none,
  some, List, [], ◌∷◌, ◌==◌, if◌then◌else◌, Bool-cases, inl, inr, arith,
}
use lpt_to_usb_adapter.Injectee.Filters.{same_string}
use lpt_to_usb_adapter.Injectee.Same.{same_string_refl, same_string_equal}
use lpt_to_usb_adapter.Injector.Defaults
use lpt_to_usb_adapter.Injector.LoadSettings.{Iniparser, add_defaults, tokens_from}
use lpt_to_usb_adapter.Injector.Completing.{IsDictionary, AllFound, add_defaults-add_defaults}

abbrev Dictionary : Type 0
Dictionary = List (List ℕ × Option (List ℕ))

abbrev has_key : Dictionary → List ℕ → Bool
has_key [] key = false
has_key ((k, v) ∷ entries) key = same_string k key || has_key entries key

abbrev string_of : Dictionary → List ℕ → Option (List ℕ) → Option (List ℕ)
string_of [] key none_value = none_value
string_of ((k, v) ∷ entries) key none_value =
    let rest = string_of entries key none_value in if same_string k key then v else rest

-- Numbers are of one digit.
abbrev digit_of : List ℕ → ℕ
digit_of [] = 0
digit_of (c ∷ cs) = if c == 55 then 7 else 0

abbrev ini : Iniparser Dictionary
ini = record {
  find_entry = has_key;
  set = λ d key value. (key, value) ∷ d;
  getstring = string_of;
  getboolean = λ d key b. b;
  getint = λ d key n. n;
  strtoul = digit_of;
}

string_kept-cons :
    (d : Dictionary) (key other : List ℕ) (value none_value : Option (List ℕ))
    → has_key d key ≡ false
    → has_key d other ≡ true
    → string_of ((key, value) ∷ d) other none_value ≡ string_of d other none_value
string_kept-cons d key other value none_value lacks there =
    elim (Bool-cases (same_string key other)) [
      | inl same ↦
          let equal = ap (has_key d) (same_string_equal key other same) in
          ground (arith, lacks, there, equal)
      | inr different ↦ rw different refl
    ]

ini-IsDictionary : IsDictionary ini
ini-IsDictionary = record {
  found = λ d key value. rw (same_string_refl key) refl;
  kept = λ d key other value there. ground (arith, there);
  string_kept = string_kept-cons;
}

-- A file that has a mode of its own.
abbrev file : Dictionary
file = (Defaults.key_mode, some (b'P' ∷ b'S' ∷ b'2' ∷ [])) ∷ []

add_defaults-add_defaults_example :
    let entries = Defaults.defaults (b'a' ∷ []) in
    let d' = (add_defaults ini entries (file, false)).0 in
    AllFound ini entries d'
    × (string_of d' Defaults.key_mode none ≡ some (b'P' ∷ b'S' ∷ b'2' ∷ []))
    × (add_defaults ini entries (d', false) ≡ (d', false))
add_defaults-add_defaults_example =
    add_defaults-add_defaults ini ini-IsDictionary (Defaults.defaults (b'a' ∷ [])) file false
      Defaults.key_mode none

-- "7, 7 8" has three tokens.
tokens_test :
    tokens_from [] (55 ∷ 44 ∷ 32 ∷ 55 ∷ 32 ∷ 56 ∷ []) ≡ (55 ∷ []) ∷ (55 ∷ []) ∷ (56 ∷ []) ∷ []
unfolding tokens_from
tokens_test = refl

-- Numbers written as a zero and a stroke for each unit.
abbrev strokes : ℕ → List ℕ
strokes n = b'0' ∷ replicate n b'1'

-- As `strtoul`, it returns `ULONG_MAX` for all that does not fit 32 bits.
abbrev saturated : ℕ → ℕ
saturated n = if ltb n (2 ^ 32) then n else 2 ^ 32 - 1

abbrev counting : Iniparser Dictionary
counting = record ini { strtoul = λ text. saturated (length (drop 1 text)) }
