-- ===== src/Injector/LocatingTests.antt =====
-- A concrete process whose modules LptToUsbAdapter/LptPatchInjector/LptPatchInjector.c searches.
use lpt_to_usb_adapter.Base.{
  ℕ, ◌+◌, ◌≡◌, refl, true, false, none, some, List, [], ◌∷◌, length, ◌==◌, if◌then◌else◌, Option,
  arith, inl, inr, Bool-cases, ap, sym, take, ◌/◌,
}
use lpt_to_usb_adapter.Usb.Api.{Api, Host}
use lpt_to_usb_adapter.Injectee.Filters.{same_string}
use lpt_to_usb_adapter.Injectee.Same.{same_string_equal}
use lpt_to_usb_adapter.Injector.Modules.{
  ModuleApi, relative_addresses, search, find_external_process_dll_fn_addresses,
}
use lpt_to_usb_adapter.Injector.Offsets.{IsSystem, IsFirst, addresses_in}
use lpt_to_usb_adapter.Injector.Locating.{some-equal, find_external_process_dll_fn_addresses-found}

abbrev host : Api (Unit {0})
host = record {
  malloc = λ n w. (true, w);
  heap_flag = λ w. false;
  stack_byte = λ w. 0;
  create_file = λ path w. (none, w);
  winusb_initialize = λ h w. (none, w);
  winusb_free = λ h w. w;
  close_handle = λ h w. w;
  control_out = λ h rq bytes w. (none, w);
  control_in = λ h rq n w. (none, w);
  write_pipe = λ h pipe bytes w. (none, w);
  read_pipe = λ h pipe n w. (none, w);
}

-- The program at 0x400000 and a library at 0x500000, which the injector has at 0x10000000.
abbrev name : ℕ → List ℕ
name m = if m == 0x500000 then b'd' ∷ [] else b'p' ∷ []

-- Of the files the injector finds only `d`.
abbrev load : List ℕ → Option ℕ
load path = if same_string path (b'd' ∷ []) then some 0x10000000 else none

abbrev process : ModuleApi (Unit {0})
process = record {
  load_library = λ path w. (load path, w);
  get_proc_address = λ library function w. (some (library + 1 + length function), w);
  free_library = λ library w. w;
  modules_size = λ w. (some 8, w);
  enum_process_modules = λ n w. (some (0x400000 ∷ 0x500000 ∷ []), w);
  module_file_name = λ m w. (some (name m), w);
  file_name = λ path. path;
}

-- The program and the library.
abbrev in_process : List ℕ
in_process = 0x400000 ∷ 0x500000 ∷ []

-- The injector has the file `d` at 0x10000000 at any time, and nothing else.
abbrev loaded_file : Unit {0} → ℕ → Option (List ℕ)
loaded_file w m = if m == 0x10000000 then some (b'd' ∷ []) else none

-- A function stands as far behind the start as its name and that of its file are long.
abbrev offset : List ℕ → List ℕ → ℕ
offset file function = length file + length function

process-loads :
    (file : List ℕ) (w : Unit {0}) (library : ℕ)
    → (process.load_library file w).0 ≡ some library
    → loaded_file w library ≡ some file
process-loads file w library e = elim (Bool-cases (same_string file (b'd' ∷ []))) [
  | inl same ↦ rw (same_string_equal file (b'd' ∷ []) same) (ground (arith, e, same))
  | inr other ↦ absurd (ground (arith, e, other))
]

process-exported :
    (library : ℕ) (file function : List ℕ) (w : Unit {0}) (a : ℕ)
    → loaded_file w library ≡ some file
    → (process.get_proc_address library function w).0 ≡ some a
    → a ≡ library + offset file function
process-exported library file function w a here e = elim (Bool-cases (library == 0x10000000)) [
  | inl same ↦
      let known : some (b'd' ∷ []) ≡ some file = rw⁻¹ here (rw same refl) in
      let name_known = ap (λ (f : List ℕ). length f) (some-equal (b'd' ∷ []) file known) in
      ground (arith, e, name_known)
  | inr other ↦ absurd (ground (arith, here, other))
]

process-IsSystem : IsSystem process loaded_file offset in_process name
process-IsSystem = record {
  loads = process-loads;
  exported = process-exported;
  stays = λ library function w. refl;
  listed = λ bytes w mods e. ap (take (bytes / 4)) (sym (some-equal in_process mods e));
  named = λ m w path e. cc;
}

abbrev start : Host (Unit {0})
start = record {
  world = tt;
  allocated = 0;
  freed = 0;
  opened = 0;
  closed = 0;
  initialized = 0;
  released = 0;
}

abbrev functions : List (List ℕ)
functions = (b'r' ∷ []) ∷ (b'w' ∷ b'w' ∷ []) ∷ []

find_external_process_dll_fn_addresses-found_example :
    (base : ℕ) × IsFirst name (b'd' ∷ []) in_process base
    × (0x500002 ∷ 0x500003 ∷ [] ≡ addresses_in offset (b'd' ∷ []) base functions)
unfolding find_external_process_dll_fn_addresses relative_addresses search
find_external_process_dll_fn_addresses-found_example =
    find_external_process_dll_fn_addresses-found host process loaded_file offset in_process name
      process-IsSystem (b'd' ∷ []) functions start (0x500002 ∷ 0x500003 ∷ []) refl
