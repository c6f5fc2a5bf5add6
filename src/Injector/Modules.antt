-- ===== src/Injector/Modules.antt =====
-- `FindExternalProcessDllFnAddresses` of LptToUsbAdapter/LptPatchInjector/LptPatchInjector.c.
use lpt_to_usb_adapter.Base.{
  ℕ, ◌+◌, ◌-◌, ◌*◌, ◌/◌, ◌^◌, Option, none, some, List, [], ◌∷◌, map, length, take, if◌then◌else◌,
  u32,
}
use lpt_to_usb_adapter.Usb.Api.{Api, M, pure, ◌>>=◌, ◌>>◌, call, free, alloc}
use lpt_to_usb_adapter.Injectee.Filters.{same_string}

-- The calls on libraries, and on the modules of the process that is debugged.
pub record ModuleApi (W : Type 0) : Type 0 where
  pub load_library : List ℕ → W → Option ℕ × W
  pub get_proc_address : ℕ → List ℕ → W → Option ℕ × W
  pub free_library : ℕ → W → W
  pub modules_size : W → Option ℕ × W
  pub enum_process_modules : ℕ → W → Option (List ℕ) × W
  pub module_file_name : ℕ → W → Option (List ℕ) × W
  -- The file's name in a path, as `GetFullPathNameA` gives it.
  pub file_name : List ℕ → List ℕ

module _ {W : Type 0} (api : Api W) (modules : ModuleApi W) where
  abbrev pub unload : ℕ → M W (Unit {0})
  unload library s = (tt, record s { world = modules.free_library library s.world })

  -- The addresses of the functions less the address of the library, in 32 bits.
  unfoldable pub relative_addresses : ℕ → List (List ℕ) → M W (Option (List ℕ))
  relative_addresses library [] s = (some [], s)
  relative_addresses library (function ∷ functions) s =
      let (a, s') = call (modules.get_proc_address library function) s in
      let (rest, s'') = relative_addresses library functions s' in
      elim a [
        | none ↦ (none, s')
        | some address ↦ (
          elim rest [
            | none ↦ none
            | some addresses ↦ some (u32 (address + 2 ^ 32 - library) ∷ addresses)
          ],
          s'',
        )
      ]

  -- The first module of that file name; the search ends at a module without a name.
  unfoldable pub search : List ℕ → List ℕ → List ℕ → M W (Option (List ℕ))
  search dll_name relative [] s = (none, s)
  search dll_name relative (library ∷ mods) s =
      let (path, s') = call (modules.module_file_name library) s in
      let rest = search dll_name relative mods s' in
      elim path [
        | none ↦ (none, s')
        | some p ↦
            if same_string (modules.file_name p) dll_name
            then (some (map (λ r. u32 (library + r)) relative), s')
            else rest
      ]

  abbrev pub search_array : List ℕ → List ℕ → ℕ → Option (List ℕ) → M W (Option (List ℕ))
  search_array dll_name relative bytes none = (free >> free) >> pure none
  search_array dll_name relative bytes (some mods) = do
    found ← search dll_name relative (take (bytes / 4) mods)
    free
    free
    pure found

  abbrev pub with_size : List ℕ → List ℕ → Option ℕ → M W (Option (List ℕ))
  with_size dll_name relative none = free >> pure none
  with_size dll_name relative (some bytes) = do
    got ← alloc api bytes
    if got
        then (call (modules.enum_process_modules bytes) >>= search_array dll_name relative bytes)
        else (free >> pure none)

  abbrev pub with_relative : ℕ → List ℕ → Option (List ℕ) → M W (Option (List ℕ))
  with_relative library dll_name none = free >> (unload library >> pure none)
  with_relative library dll_name (some relative) =
      unload library >> (call modules.modules_size >>= with_size dll_name relative)

  abbrev pub with_library : List ℕ → List (List ℕ) → Option ℕ → M W (Option (List ℕ))
  with_library dll_name functions none = free >> pure none
  with_library dll_name functions (some library) =
      relative_addresses library functions >>= with_relative library dll_name

  -- `FindExternalProcessDllFnAddresses`: the addresses, after a return of true.
  unfoldable pub find_external_process_dll_fn_addresses :
      List ℕ → List (List ℕ) → M W (Option (List ℕ))
  find_external_process_dll_fn_addresses dll_name functions = do
    got ← alloc api (4 * length functions)
    if got
        then (call (modules.load_library dll_name) >>= with_library dll_name functions)
        else pure none
