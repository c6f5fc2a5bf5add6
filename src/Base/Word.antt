-- ===== src/Base/Word.antt =====
-- Fixed-width values as numbers: the bits of a byte, and the little-endian form of a word.
use Prim.Native.Nat.{ℕ, ◌+◌, ◌*◌, ◌/◌, ◌%◌, ◌^◌, ◌≤◌, ◌<◌}
use mathlib.Core.Path.{◌≡◌}
use mathlib.Core.Bool.{Bool}
use mathlib.Core.Logic.{◌⊎◌, inl, inr}
use mathlib.Core.List.{List, [], ◌∷◌}
use native.Mathlib.Omega.{arith}
use lpt_to_usb_adapter.Base.Tests.{ltb, ◌==◌, if◌then◌else◌}

-- `(uint8_t)n`, `(uint16_t)n`, `(uint32_t)n`
abbrev pub u8 : ℕ → ℕ
u8 n = n % 2 ^ 8

abbrev pub u16 : ℕ → ℕ
u16 n = n % 2 ^ 16

abbrev pub u32 : ℕ → ℕ
u32 n = n % 2 ^ 32

-- `n & _BV(k)` as a truth value.
abbrev pub bit : ℕ → ℕ → Bool
bit n k = n / 2 ^ k % 2 == 1

-- The weight of a bit that is set.
abbrev pub weight : Bool → ℕ → ℕ
weight b w = if b then w else 0

-- The byte with the given bits, bit 0 first.
abbrev pub byte_of : Bool → Bool → Bool → Bool → Bool → Bool → Bool → Bool → ℕ
byte_of d0 d1 d2 d3 d4 d5 d6 d7 =
    weight d0 1
    + weight d1 2
    + weight d2 4
    + weight d3 8
    + weight d4 16
    + weight d5 32
    + weight d6 64
    + weight d7 128

pub weight-le : (b : Bool) (w : ℕ) → weight b w ≤ w
weight-le b w = ground arith

pub byte_of-lt : (d0 d1 d2 d3 d4 d5 d6 d7 : Bool) → byte_of d0 d1 d2 d3 d4 d5 d6 d7 < 256
byte_of-lt d0 d1 d2 d3 d4 d5 d6 d7 = omega (
  arith,
  weight-le d0 1,
  weight-le d1 2,
  weight-le d2 4,
  weight-le d3 8,
  weight-le d4 16,
  weight-le d5 32,
  weight-le d6 64,
  weight-le d7 128,
)

ℕ-cases : (x : ℕ) → x < 2 → (x ≡ 0) ⊎ (x ≡ 1)
ℕ-cases x h = ground arith

weight-odd : (x w : ℕ) → weight (x % 2 == 1) w ≡ x % 2 * w
weight-odd x w = elim (ℕ-cases (x % 2) (omega arith)) [
  | inl even ↦ rw even (omega arith)
  | inr odd ↦ rw odd (omega arith)
]

pub byte_of-bit :
    (n : ℕ)
    → n < 256
    → byte_of (bit n 0) (bit n 1) (bit n 2) (bit n 3) (bit n 4) (bit n 5) (bit n 6) (bit n 7) ≡ n
byte_of-bit n h =
    rw
      (
        weight-odd (n / 1) 1,
        weight-odd (n / 2) 2,
        weight-odd (n / 4) 4,
        weight-odd (n / 8) 8,
        weight-odd (n / 16) 16,
        weight-odd (n / 32) 32,
        weight-odd (n / 64) 64,
        weight-odd (n / 128) 128,
      )
      (omega arith)

-- The bytes of a `uint32_t` in memory, on a little-endian host.
abbrev pub le32 : ℕ → List ℕ
le32 n = u8 n ∷ u8 (n / 2 ^ 8) ∷ u8 (n / 2 ^ 16) ∷ u8 (n / 2 ^ 24) ∷ []

-- A digit of `%X`.
abbrev pub capital_digit : ℕ → ℕ
capital_digit d = if ltb d 10 then d + 48 else d + 55
