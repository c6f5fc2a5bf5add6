-- ===== src/Base/Bytes.antt =====
-- A memory of bytes, read as lists.
use Prim.Native.Nat.{ℕ, zero, suc, ◌+◌}
use mathlib.Core.Path.{◌≡◌, refl, ap}
use mathlib.Core.List.{List, [], ◌∷◌, ◌++◌}
use native.Mathlib.Omega.{arith}

-- The bytes from an address on.
unfoldable pub bytes_at : (ℕ → ℕ) → ℕ → ℕ → List ℕ
bytes_at memory a zero = []
bytes_at memory a (suc n) = memory a ∷ bytes_at memory (suc a) n

pub bytes_at-append :
    (memory : ℕ → ℕ) (a n k : ℕ)
    → bytes_at memory a (n + k) ≡ bytes_at memory a n ++ bytes_at memory (a + n) k
unfolding bytes_at
bytes_at-append memory a zero k =
    let e : 0 + k ≡ k = omega arith in let e' : a + 0 ≡ a = omega arith in rw (e, e') refl
bytes_at-append memory a (suc n) k =
    let e : suc n + k ≡ suc (n + k) = omega arith in
    let e' : a + suc n ≡ suc a + n = omega arith in
    rw (e, e') (ap (◌∷◌ (memory a)) (bytes_at-append memory (suc a) n k))
