-- ===== src/Injector/Offsets.antt =====
-- What the search of LptToUsbAdapter/LptPatchInjector/LptPatchInjector.c for addresses in a process
-- relies on: the libraries of the injector, and the modules of the process.
use lpt_to_usb_adapter.Base.{
  ℕ, ◌+◌, ◌/◌, ◌≡◌, sym, ap, ◌∙◌, Option, append_assoc, ◌++◌, drop, take-append-drop, some, List,
  [], ◌∷◌, map, take, u32,
}
use lpt_to_usb_adapter.Injector.Modules.{ModuleApi}

-- What the system promises. `loaded` tells the file that the injector has at an address, `offset`
-- where a function of a file stands in it, wherever it is loaded; the process, which is stopped,
-- has the modules `in_process`, of the files `name`.
pub record IsSystem {W : Type 0} (modules : ModuleApi W) (loaded : W → ℕ → Option (List ℕ))
    (offset : List ℕ → List ℕ → ℕ) (in_process : List ℕ) (name : ℕ → List ℕ) : Type 0 where
  pub loads :
      (file : List ℕ) (w : W) (library : ℕ)
      → (modules.load_library file w).0 ≡ some library
      → loaded (modules.load_library file w).1 library ≡ some file
  pub exported :
      (library : ℕ) (file function : List ℕ) (w : W) (a : ℕ)
      → loaded w library ≡ some file
      → (modules.get_proc_address library function w).0 ≡ some a
      → a ≡ library + offset file function
  pub stays :
      (library : ℕ) (function : List ℕ) (w : W)
      → loaded (modules.get_proc_address library function w).1 library ≡ loaded w library
  pub listed :
      (bytes : ℕ) (w : W) (mods : List ℕ)
      → (modules.enum_process_modules bytes w).0 ≡ some mods
      → take (bytes / 4) mods ≡ take (bytes / 4) in_process
  pub named :
      (m : ℕ) (w : W) (path : List ℕ)
      → (modules.module_file_name m w).0 ≡ some path
      → modules.file_name path ≡ name m

-- The addresses, in 32 bits, of the functions of a file in a module at this base.
abbrev pub addresses_in : (List ℕ → List ℕ → ℕ) → List ℕ → ℕ → List (List ℕ) → List ℕ
addresses_in offset file base functions =
    map (λ function. u32 (base + offset file function)) functions

-- No module of the list has the name.
abbrev pub Unnamed : (ℕ → List ℕ) → List ℕ → List ℕ → Type 0
Unnamed name dll_name [] = Unit {0}
Unnamed name dll_name (m ∷ mods) = ¬ (name m ≡ dll_name) × Unnamed name dll_name mods

-- The first module of the list that has the name.
abbrev pub IsFirst : (ℕ → List ℕ) → List ℕ → List ℕ → ℕ → Type 0
IsFirst name dll_name mods base =
    (before : List ℕ) × (after : List ℕ) × (mods ≡ before ++ base ∷ after)
    × Unnamed name dll_name before
    × (name base ≡ dll_name)

pub IsFirst-next :
    (name : ℕ → List ℕ) (dll_name mods : List ℕ) (m base : ℕ)
    → ¬ (name m ≡ dll_name)
    → IsFirst name dll_name mods base
    → IsFirst name dll_name (m ∷ mods) base
IsFirst-next name dll_name mods m base other (before, after, e, unnamed, named) =
    (m ∷ before, after, ap (◌∷◌ m) e, (other, unnamed), named)

pub IsFirst-take :
    (name : ℕ → List ℕ) (dll_name mods : List ℕ) (n base : ℕ)
    → IsFirst name dll_name (take n mods) base
    → IsFirst name dll_name mods base
IsFirst-take name dll_name mods n base (before, after, e, unnamed, named) = (
  before,
  after ++ drop n mods,
  sym (take-append-drop n mods)
      ∙ ap (λ ms. ms ++ drop n mods) e
      ∙ append_assoc before (base ∷ after) (drop n mods),
  unnamed,
  named,
)
