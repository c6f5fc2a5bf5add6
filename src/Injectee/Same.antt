-- ===== src/Injectee/Same.antt =====
-- That `strcmp`, as LptToUsbAdapter/LptPatchInjectee/LptPatchInjectee.c uses it, tells equal texts.
use lpt_to_usb_adapter.Base.{
  ℕ, ◌≡◌, refl, ap, ◌∙◌, true, List, [], ◌∷◌, ◌==◌, ==_iff, Bool-cases, inl, inr, arith,
}
use lpt_to_usb_adapter.Injectee.Filters.{same_string}

pub same_string_refl : (s : List ℕ) → same_string s s ≡ true
same_string_refl [] = refl
same_string_refl (c ∷ cs) = rw ((==_iff c c).1 refl, same_string_refl cs) refl

pub same_string_equal : (s t : List ℕ) → same_string s t ≡ true → s ≡ t
same_string_equal [] [] e = refl
same_string_equal [] (y ∷ t) e = ground (arith, e)
same_string_equal (x ∷ s) [] e = ground (arith, e)
same_string_equal (x ∷ s) (y ∷ t) e = elim (Bool-cases (x == y)) [
  | inl first ↦
      let rest = same_string_equal s t (rw⁻¹ e (rw first refl)) in
      ap (λ c. c ∷ s) ((==_iff x y).0 first) ∙ ap (◌∷◌ y) rest
  | inr other ↦ ground (arith, e, other)
]
