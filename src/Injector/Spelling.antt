-- ===== src/Injector/Spelling.antt =====
-- The names of the modes that `wWinMain` of LptToUsbAdapter/LptPatchInjector/LptPatchInjector.c
-- takes, letter by letter.
use lpt_to_usb_adapter.Base.{
  ℕ, ◌+◌, ◌≤◌, ◌<◌, ◌≡◌, refl, ap, ◌⊎◌, inl, inr, true, none, some, List, [], ◌∷◌, arith, ◌==◌,
  ==_iff, Bool-cases,
}
use lpt_to_usb_adapter.Injector.Startup.{lower, same_caseless, mode_of_setting}

-- A character, or the small letter of a capital.
abbrev pub IsLetter : ℕ → ℕ → Type 0
IsLetter w c = (c ≡ w) ⊎ ((65 ≤ w) × (w ≤ 90) × (c ≡ w + 32))

-- A text is a word, each letter of it in capitals or small.
abbrev pub Spells : List ℕ → List ℕ → Type 0
Spells [] text = text ≡ []
Spells (w ∷ ws) text = (c : ℕ) × (cs : List ℕ) × (text ≡ c ∷ cs) × IsLetter w c × Spells ws cs

abbrev epp_word : List ℕ
epp_word = b'E' ∷ b'P' ∷ b'P' ∷ []

abbrev legacy_word : List ℕ
legacy_word = b'L' ∷ b'E' ∷ b'G' ∷ b'A' ∷ b'C' ∷ b'Y' ∷ []

-- "PS/2"
abbrev ps_2_word : List ℕ
ps_2_word = b'P' ∷ b'S' ∷ b'/' ∷ b'2' ∷ []

abbrev ps2_word : List ℕ
ps2_word = b'P' ∷ b'S' ∷ b'2' ∷ []

-- EPP is mode 2, LEGACY is mode 0, and PS/2 and PS2 are mode 1.
abbrev pub Names : List ℕ → ℕ → Type 0
Names text mode =
    ((mode ≡ 2) × Spells epp_word text)
    ⊎ (((mode ≡ 0) × Spells legacy_word text)
        ⊎ (((mode ≡ 1) × Spells ps_2_word text) ⊎ ((mode ≡ 1) × Spells ps2_word text)))

-- No small letter.
abbrev Capitals : List ℕ → Type 0
Capitals [] = Unit {0}
Capitals (w ∷ ws) = (w < 97) × Capitals ws

lower-IsLetter : (c w : ℕ) → w < 97 → lower c ≡ lower w → IsLetter w c
lower-IsLetter c w capital e = ground (arith, e, capital)

IsLetter-lower : (c w : ℕ) → IsLetter w c → lower c ≡ lower w
IsLetter-lower c w (inl same) = ap lower same
IsLetter-lower c w (inr (low, high, e)) = rw e (ground (arith, low, high))

same_caseless-Spells :
    (ws text : List ℕ) → Capitals ws → same_caseless text ws ≡ true → Spells ws text
same_caseless-Spells [] [] capitals e = refl
same_caseless-Spells [] (c ∷ cs) capitals e = absurd (ground (arith, e))
same_caseless-Spells (w ∷ ws) [] capitals e = absurd (ground (arith, e))
same_caseless-Spells (w ∷ ws) (c ∷ cs) (capital, capitals) e =
    elim (Bool-cases (lower c == lower w)) [
      | inl same ↦ (
        c,
        cs,
        refl,
        lower-IsLetter c w capital ((==_iff (lower c) (lower w)).0 same),
        same_caseless-Spells ws cs capitals (rw⁻¹ e (rw same refl)),
      )
      | inr other ↦ absurd (ground (arith, e, other))
    ]

Spells-same_caseless : (ws text : List ℕ) → Spells ws text → same_caseless text ws ≡ true
Spells-same_caseless [] text e = rw e refl
Spells-same_caseless (w ∷ ws) text (c, cs, e, letter, spells) =
    let same = (==_iff (lower c) (lower w)).1 (IsLetter-lower c w letter) in
    rw (e, same) (Spells-same_caseless ws cs spells)

pub mode_of_setting-Names :
    (text : List ℕ) (mode : ℕ) → mode_of_setting text ≡ some mode → Names text mode
unfolding mode_of_setting
mode_of_setting-Names text mode e = elim (Bool-cases (same_caseless text epp_word)) [
  | inl epp ↦
      let known : mode ≡ 2 = ground (arith, e, epp) in
      inl (known, same_caseless-Spells epp_word text (omega arith) epp)
  | inr not_epp ↦ elim (Bool-cases (same_caseless text legacy_word)) [
    | inl legacy ↦
        let known : mode ≡ 0 = ground (arith, e, not_epp, legacy) in
        inr (inl (known, same_caseless-Spells legacy_word text (omega arith) legacy))
    | inr not_legacy ↦ elim (Bool-cases (same_caseless text ps_2_word)) [
      | inl ps_2 ↦
          let known : mode ≡ 1 = ground (arith, e, not_epp, not_legacy, ps_2) in
          inr (inr (inl (known, same_caseless-Spells ps_2_word text (omega arith) ps_2)))
      | inr not_ps_2 ↦ elim (Bool-cases (same_caseless text ps2_word)) [
        | inl ps2 ↦
            let known : mode ≡ 1 = ground (arith, e, not_epp, not_legacy, not_ps_2, ps2) in
            inr (inr (inr (known, same_caseless-Spells ps2_word text (omega arith) ps2)))
        | inr not_ps2 ↦ absurd (ground (arith, e, not_epp, not_legacy, not_ps_2, not_ps2))
      ]
    ]
  ]
]

pub mode_of_setting-none :
    (text : List ℕ) → mode_of_setting text ≡ none → (mode : ℕ) → ¬ (Names text mode)
unfolding mode_of_setting
mode_of_setting-none text e mode (inl (m, spells)) =
    ground (arith, e, Spells-same_caseless epp_word text spells)
mode_of_setting-none text e mode (inr (inl (m, spells))) =
    ground (arith, e, Spells-same_caseless legacy_word text spells)
mode_of_setting-none text e mode (inr (inr (inl (m, spells)))) =
    ground (arith, e, Spells-same_caseless ps_2_word text spells)
mode_of_setting-none text e mode (inr (inr (inr (m, spells)))) =
    ground (arith, e, Spells-same_caseless ps2_word text spells)
