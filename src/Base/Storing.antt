-- ===== src/Base/Storing.antt =====
-- A memory of bytes that is a function, with lists stored in it.
use Prim.Native.Nat.{ℕ, zero, suc, ◌+◌, ◌≤◌, ◌<◌}
use mathlib.Core.Path.{◌≡◌, refl, ◌∙◌}
use mathlib.Core.List.{List, [], ◌∷◌}
use native.Mathlib.Omega.{arith}
use lpt_to_usb_adapter.Base.Tests.{◌==◌, if◌then◌else◌}
use lpt_to_usb_adapter.Base.Lists.{length}
use lpt_to_usb_adapter.Base.Bytes.{bytes_at}

abbrev pub stored_at : ℕ → List ℕ → (ℕ → ℕ) → (ℕ → ℕ)
stored_at a [] m b = m b
stored_at a (x ∷ xs) m b = let rest = stored_at (suc a) xs m b in if b == a then x else rest

pub stored_at-below : (a : ℕ) (xs : List ℕ) (m : (ℕ → ℕ)) (b : ℕ) → b < a → stored_at a xs m b ≡ m b
stored_at-below a [] m b below = refl
stored_at-below a (x ∷ xs) m b below =
    ground (arith, below, stored_at-below (suc a) xs m b (omega arith))

pub stored_at-beyond :
    (a : ℕ) (xs : List ℕ) (m : (ℕ → ℕ)) (b : ℕ) → a + length xs ≤ b → stored_at a xs m b ≡ m b
stored_at-beyond a [] m b beyond = refl
stored_at-beyond a (x ∷ xs) m b beyond =
    ground (arith, beyond, stored_at-beyond (suc a) xs m b (omega arith))

bytes_at-stored_at :
    (a : ℕ) (x : ℕ) (xs : List ℕ) (m : (ℕ → ℕ)) (b n : ℕ)
    → a < b
    → bytes_at (stored_at a (x ∷ xs) m) b n ≡ bytes_at (stored_at (suc a) xs m) b n
unfolding bytes_at
bytes_at-stored_at a x xs m b zero after = refl
bytes_at-stored_at a x xs m b (suc n) after =
    let first : stored_at a (x ∷ xs) m b ≡ stored_at (suc a) xs m b = ground (arith, after) in
    rw (first, bytes_at-stored_at a x xs m (suc b) n (omega arith)) refl

pub stored_at-stored :
    (a : ℕ) (xs : List ℕ) (m : (ℕ → ℕ)) → bytes_at (stored_at a xs m) a (length xs) ≡ xs
unfolding bytes_at
stored_at-stored a [] m = refl
stored_at-stored a (x ∷ xs) m =
    let first : stored_at a (x ∷ xs) m a ≡ x = ground arith in
    let rest =
      bytes_at-stored_at a x xs m (suc a) (length xs) (omega arith)
      ∙ stored_at-stored (suc a) xs m in
    rw (first, rest) refl
