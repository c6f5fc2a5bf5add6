-- ===== src/Injector/Completing.antt =====
-- The defaults that `LoadSettings` of LptToUsbAdapter/LptPatchInjector/CommonCode.c adds.
use lpt_to_usb_adapter.Base.{
  ℕ, ◌≡◌, refl, ◌∙◌, Bool, true, false, Option, none, List, [], ◌∷◌, if◌then◌else◌, Bool-cases, inl,
  inr,
}
use lpt_to_usb_adapter.Injector.LoadSettings.{Iniparser, add_default, add_defaults}

-- A dictionary in which a key that was set is found, and setting a key that was not there leaves
-- the others alone.
pub record IsDictionary {D : Type 0} (ini : Iniparser D) : Type 0 where
  pub found :
      (d : D) (key : List ℕ) (value : Option (List ℕ))
      → ini.find_entry (ini.set d key value) key ≡ true
  pub kept :
      (d : D) (key other : List ℕ) (value : Option (List ℕ))
      → ini.find_entry d other ≡ true
      → ini.find_entry (ini.set d key value) other ≡ true
  pub string_kept :
      (d : D) (key other : List ℕ) (value none_value : Option (List ℕ))
      → ini.find_entry d key ≡ false
      → ini.find_entry d other ≡ true
      → ini.getstring (ini.set d key value) other none_value ≡ ini.getstring d other none_value

module _ {D : Type 0} (ini : Iniparser D) where
  abbrev pub AllFound : List (List ℕ × Option (List ℕ)) → D → Type 0
  AllFound [] d = Unit {0}
  AllFound ((key, value) ∷ entries) d = (ini.find_entry d key ≡ true) × AllFound entries d

  module _ (h : IsDictionary ini) where
    -- What was there is found with the same string after one round, and after all.
    add_default-kept :
        (entry : List ℕ × Option (List ℕ)) (d : D) (b : Bool) (other : List ℕ)
        (none_value : Option (List ℕ))
        → ini.find_entry d other ≡ true
        → let (d', b') = add_default ini entry (d, b) in
          (ini.find_entry d' other ≡ true)
          × (ini.getstring d' other none_value ≡ ini.getstring d other none_value)
    add_default-kept (key, value) d b other none_value there =
        elim (Bool-cases (ini.find_entry d key)) [
          | inl has ↦ rw has (there, refl)
          | inr lacks ↦ rw lacks (
            h.kept d key other value there,
            h.string_kept d key other value none_value lacks there,
          )
        ]

    add_defaults-kept :
        (entries : List (List ℕ × Option (List ℕ))) (d : D) (b : Bool) (other : List ℕ)
        (none_value : Option (List ℕ))
        → ini.find_entry d other ≡ true
        → let (d', b') = add_defaults ini entries (d, b) in
          (ini.find_entry d' other ≡ true)
          × (ini.getstring d' other none_value ≡ ini.getstring d other none_value)
    unfolding add_defaults
    add_defaults-kept [] d b other none_value there = (there, refl)
    add_defaults-kept (entry ∷ entries) d b other none_value there =
        let (d₁, b₁) = add_default ini entry (d, b) in
        let (there₁, same₁) = add_default-kept entry d b other none_value there in
        let (there₂, same₂) = add_defaults-kept entries d₁ b₁ other none_value there₁ in
        (there₂, same₂ ∙ same₁)

    add_default-found :
        (key : List ℕ) (value : Option (List ℕ)) (d : D) (b : Bool)
        → ini.find_entry (add_default ini (key, value) (d, b)).0 key ≡ true
    add_default-found key value d b = elim (Bool-cases (ini.find_entry d key)) [
      | inl has ↦ rw has has
      | inr lacks ↦ rw lacks (h.found d key value)
    ]

    add_defaults-AllFound :
        (entries : List (List ℕ × Option (List ℕ))) (d : D) (b : Bool)
        → AllFound entries (add_defaults ini entries (d, b)).0
    unfolding add_defaults
    add_defaults-AllFound [] d b = tt
    add_defaults-AllFound ((key, value) ∷ entries) d b =
        let (d₁, b₁) = add_default ini (key, value) (d, b) in
        (
          (add_defaults-kept entries d₁ b₁ key none (add_default-found key value d b)).0,
          add_defaults-AllFound entries d₁ b₁,
        )

    add_defaults-once :
        (entries : List (List ℕ × Option (List ℕ))) (d : D) (b : Bool)
        → AllFound entries d
        → add_defaults ini entries (d, b) ≡ (d, b)
    unfolding add_defaults
    add_defaults-once [] d b there = refl
    add_defaults-once ((key, value) ∷ entries) d b (has, there) =
        rw has (add_defaults-once entries d b there)

    -- In a dictionary in which setting a new key leaves the others alone: behind the loop every
    -- default has its key, a key that was there before is read as before, and a second run of the
    -- loop adds nothing and asks for no update.
    pub add_defaults-add_defaults :
        (entries : List (List ℕ × Option (List ℕ))) (d : D) (b : Bool) (key : List ℕ)
        (none_value : Option (List ℕ))
        → let d' = (add_defaults ini entries (d, b)).0 in
          AllFound entries d'
          × (ini.getstring d' key none_value ≡ (
              if ini.find_entry d key
              then ini.getstring d key none_value
              else ini.getstring d' key none_value))
          × (add_defaults ini entries (d', false) ≡ (d', false))
    add_defaults-add_defaults entries d b key none_value =
        let d' = (add_defaults ini entries (d, b)).0 in
        let all = add_defaults-AllFound entries d b in
        (
          all,
          elim (Bool-cases (ini.find_entry d key)) [
            | inl there ↦ rw there (add_defaults-kept entries d b key none_value there).1
            | inr lacks ↦ rw lacks refl
          ],
          add_defaults-once entries d' false all,
        )
