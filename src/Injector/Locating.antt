-- ===== src/Injector/Locating.antt =====
-- The addresses that `FindExternalProcessDllFnAddresses` of
-- LptToUsbAdapter/LptPatchInjector/LptPatchInjector.c finds.
use mathlib.Core.Path.{subst}
use lpt_to_usb_adapter.Base.{
  ℕ, ◌+◌, ◌-◌, ◌*◌, ◌/◌, ◌^◌, ◌≡◌, refl, sym, ap, ◌∙◌, Bool-cases, Option-cases, inl, inr, Option,
  none, some, List, [], ◌∷◌, map, length, take, u32, arith,
}
use lpt_to_usb_adapter.Usb.Api.{Api, Host, ◌>>=◌, call, alloc}
use lpt_to_usb_adapter.Injectee.Filters.{same_string}
use lpt_to_usb_adapter.Injectee.Same.{same_string_equal, same_string_refl}
use lpt_to_usb_adapter.Injector.Offsets.{
  IsSystem, addresses_in, IsFirst, IsFirst-next, IsFirst-take,
}
use lpt_to_usb_adapter.Injector.Modules.{
  ModuleApi, unload, relative_addresses, search, search_array, with_size, with_relative,
  with_library, find_external_process_dll_fn_addresses,
}

pub some-equal : {A : Type 0} (a b : A) → some a ≡ some b → a ≡ b
some-equal a b e = cc

module _ {W : Type 0} (api : Api W) (modules : ModuleApi W) (loaded : W → ℕ → Option (List ℕ))
    (offset : List ℕ → List ℕ → ℕ) (in_process : List ℕ) (name : ℕ → List ℕ)
    (sys : IsSystem modules loaded offset in_process name) where
  abbrev offsets : List ℕ → List (List ℕ) → List ℕ
  offsets file functions = map (λ function. u32 (offset file function)) functions

  relative_addresses-offsets :
      (library : ℕ) (file : List ℕ) (functions : List (List ℕ)) (s : Host W) (relative : List ℕ)
      → loaded s.world library ≡ some file
      → (relative_addresses api modules library functions s).0 ≡ some relative
      → relative ≡ offsets file functions
  unfolding relative_addresses
  relative_addresses-offsets library file [] s relative here e = sym (some-equal [] relative e)
  relative_addresses-offsets library file (function ∷ functions) s relative here e =
      let (a, s') = call (modules.get_proc_address library function) s in
      let (rest, s'') = relative_addresses api modules library functions s' in
      elim (Option-cases a) [
        | inl lacks ↦ absurd (ground (arith, e, lacks))
        | inr (address, there) ↦ elim (Option-cases rest) [
          | inl lacks ↦ absurd (ground (arith, e, there, lacks))
          | inr (addresses, others) ↦
              let at = sys.exported library file function s.world address here there in
              let first : u32 (address + 2 ^ 32 - library) ≡ u32 (offset file function) =
                omega (arith, at) in
              let here' = sys.stays library function s.world ∙ here in
              let ih =
                relative_addresses-offsets library file functions s' addresses here' others in
              let found = u32 (address + 2 ^ 32 - library) ∷ addresses in
              let turn : (relative_addresses api modules library (function ∷ functions) s).0
                  ≡ some found =
                rw (relative_addresses, there, others) refl in
              sym (some-equal found relative (sym turn ∙ e)) ∙ rw (first, ih) refl
        ]
      ]

  search-found :
      (dll_name : List ℕ) (relative mods : List ℕ) (s : Host W) (addresses : List ℕ)
      → (search api modules dll_name relative mods s).0 ≡ some addresses
      → (base : ℕ) × IsFirst name dll_name mods base
        × (addresses ≡ map (λ r. u32 (base + r)) relative)
  unfolding search
  search-found dll_name relative [] s addresses e = ground (arith, e)
  search-found dll_name relative (library ∷ mods) s addresses e =
      let (path, s') = call (modules.module_file_name library) s in
      elim (Option-cases path) [
        | inl lacks ↦ absurd (ground (arith, e, lacks))
        | inr (p, there) ↦ elim (Bool-cases (same_string (modules.file_name p) dll_name)) [
          | inl same ↦
              let n = sys.named library s.world p there in
              let found = map (λ r. u32 (library + r)) relative in
              let turn : (search api modules dll_name relative (library ∷ mods) s).0 ≡ some found =
                rw (search, there, same) refl in
              (
                library,
                ([], mods, refl, tt, sym n ∙ same_string_equal (modules.file_name p) dll_name same),
                sym (some-equal found addresses (sym turn ∙ e)),
              )
          | inr other ↦
              let turn : (search api modules dll_name relative (library ∷ mods) s).0
                  ≡ (search api modules dll_name relative mods s').0 =
                rw (search, there, other) refl in
              let n = sys.named library s.world p there in
              let differs : ¬ (name library ≡ dll_name) =
                λ same. absurd (ground (arith, other, same_string_refl dll_name, n ∙ same)) in
              let (base, first, at) =
                search-found dll_name relative mods s' addresses (sym turn ∙ e) in
              (base, IsFirst-next name dll_name mods library base differs first, at)
        ]
      ]

  Found : List ℕ → List ℕ → List ℕ → Type 0
  Found dll_name relative addresses =
      (base : ℕ) × IsFirst name dll_name in_process base
      × (addresses ≡ map (λ r. u32 (base + r)) relative)

  search_array-Found :
      (dll_name : List ℕ) (relative : List ℕ) (bytes : ℕ) (array : Option (List ℕ)) (s : Host W)
      (addresses : List ℕ)
      → ((mods : List ℕ) → array ≡ some mods → take (bytes / 4) mods ≡ take (bytes / 4) in_process)
      → (search_array api modules dll_name relative bytes array s).0 ≡ some addresses
      → Found dll_name relative addresses
  unfolding Found
  search_array-Found dll_name relative bytes none s addresses known e = ground (arith, e)
  search_array-Found dll_name relative bytes (some mods) s addresses known e =
      let (base, first, at) =
        search-found dll_name relative (take (bytes / 4) mods) s addresses e in
      let among = subst (λ ms. IsFirst name dll_name ms base) (known mods refl) first in
      (base, IsFirst-take name dll_name in_process (bytes / 4) base among, at)

  with_size-Found :
      (dll_name : List ℕ) (relative : List ℕ) (size : Option ℕ) (s : Host W) (addresses : List ℕ)
      → (with_size api modules dll_name relative size s).0 ≡ some addresses
      → Found dll_name relative addresses
  with_size-Found dll_name relative none s addresses e = absurd (ground (arith, e))
  with_size-Found dll_name relative (some bytes) s addresses e =
      let (got, s') = alloc api bytes s in
      let (array, s'') = call (modules.enum_process_modules bytes) s' in
      elim (Bool-cases got) [
        | inr nothing ↦ absurd (ground (arith, e, nothing))
        | inl gave ↦
            let turn : (with_size api modules dll_name relative (some bytes) s).0
                ≡ (search_array api modules dll_name relative bytes array s'').0 =
              rw (with_size, ◌>>=◌, gave) refl in
            search_array-Found dll_name relative bytes array s'' addresses
              (sys.listed bytes s'.world) (sym turn ∙ e)
      ]

  with_relative-Found :
      (library : ℕ) (dll_name : List ℕ) (relative : Option (List ℕ)) (s : Host W)
      (addresses : List ℕ)
      → (with_relative api modules library dll_name relative s).0 ≡ some addresses
      → (found : List ℕ) × (relative ≡ some found) × Found dll_name found addresses
  with_relative-Found library dll_name none s addresses e = absurd (ground (arith, e))
  with_relative-Found library dll_name (some relative) s addresses e =
      let s1 = (unload api modules library s).1 in
      let (size, s') = call modules.modules_size s1 in
      (relative, refl, with_size-Found dll_name relative size s' addresses e)

  map-offsets :
      (file : List ℕ) (base : ℕ) (functions : List (List ℕ))
      → map (λ r. u32 (base + r)) (offsets file functions) ≡ addresses_in offset file base functions
  map-offsets file base [] = refl
  map-offsets file base (function ∷ functions) =
      let e : u32 (base + u32 (offset file function)) ≡ u32 (base + offset file function) =
        omega arith in
      rw (e, map-offsets file base functions) refl

  with_library-Found :
      (dll_name : List ℕ) (functions : List (List ℕ)) (library : Option ℕ) (s : Host W)
      (addresses : List ℕ)
      → ((m : ℕ) → library ≡ some m → loaded s.world m ≡ some dll_name)
      → (with_library api modules dll_name functions library s).0 ≡ some addresses
      → (base : ℕ) × IsFirst name dll_name in_process base
        × (addresses ≡ addresses_in offset dll_name base functions)
  unfolding Found
  with_library-Found dll_name functions none s addresses here e = absurd (ground (arith, e))
  with_library-Found dll_name functions (some library) s addresses here e =
      let (relative, s') = relative_addresses api modules library functions s in
      let (found, there, (base, first, at)) =
        with_relative-Found library dll_name relative s' addresses e in
      let known =
        relative_addresses-offsets library dll_name functions s found (here library refl) there in
      (base, first, at ∙ ap (map (λ r. u32 (base + r))) known ∙ map-offsets dll_name base functions)

  -- If the search gives addresses, then one of the modules of the process has the name that is
  -- asked for, and they are the addresses, in 32 bits and in their order, at which the functions of
  -- the file that the injector loads under that name stand in the first such module.
  pub find_external_process_dll_fn_addresses-found :
      (dll_name : List ℕ) (functions : List (List ℕ)) (s : Host W) (addresses : List ℕ)
      → (find_external_process_dll_fn_addresses api modules dll_name functions s).0 ≡ some addresses
      → (base : ℕ) × IsFirst name dll_name in_process base
        × (addresses ≡ addresses_in offset dll_name base functions)
  unfolding find_external_process_dll_fn_addresses
  find_external_process_dll_fn_addresses-found dll_name functions s addresses e =
      let (got, s') = alloc api (4 * length functions) s in
      let (library, s'') = call (modules.load_library dll_name) s' in
      elim (Bool-cases got) [
        | inr nothing ↦ absurd (ground (arith, e, nothing))
        | inl gave ↦
            let turn : (find_external_process_dll_fn_addresses api modules dll_name functions s).0
                ≡ (with_library api modules dll_name functions library s'').0 =
              rw (find_external_process_dll_fn_addresses, ◌>>=◌, gave) refl in
            with_library-Found dll_name functions library s'' addresses
              (sys.loads dll_name s'.world) (sym turn ∙ e)
      ]
