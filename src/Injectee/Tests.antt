-- ===== src/Injectee/Tests.antt =====
-- Concrete calls of a patched program, for LptToUsbAdapter/LptPatchInjectee/LptPatchInjectee.c.
use lpt_to_usb_adapter.Base.{
  ℕ, ◌+◌, ◌≡◌, refl, inl, Bool, false, Option, some, none, List, [], ◌∷◌, ◌++◌, true, replicate,
  arith,
}
use lpt_to_usb_adapter.Link.Tests.{cable, plugged, lpt}
use lpt_to_usb_adapter.Injectee.Ports.{died, write_port8, read_port8}
use lpt_to_usb_adapter.Injectee.Serving.{port8-other_died}
use lpt_to_usb_adapter.Injectee.Registry.{
  OpenKey, hkey_local_machine, parallel_ports, key_read_values, reg_open_key_filter,
  reg_open_key_filter-query,
}
use lpt_to_usb_adapter.Injectee.Attach.{
  Hook, Detours, InjecteeSettings, process_attach, process_detach, on_reason,
}
use lpt_to_usb_adapter.Injectee.Detaching.{
  Change, redirect, give_back, opened, noted, settled, IsTransactional, chosen_hooks,
  on_reason-on_reason,
}
use lpt_to_usb_adapter.Injectee.Filters.{
  Hooks, Buffers, lpt0_key, stored, lpt0_value, copy, error_success, error_no_more_items,
  reg_enum_value_filter, reg_query_value_filter,
}
use lpt_to_usb_adapter.Injectee.Hooks.{asking, answered}

abbrev bypass_ports : List ℕ
bypass_ports = 0x77a ∷ []

-- The second port's data register.
port8-other_died_example :
    (write_port8 cable bypass_ports lpt 0x278 1 plugged ≡ (died, plugged))
    × (read_port8 cable bypass_ports lpt 0x278 plugged ≡ (died, plugged))
port8-other_died_example =
    port8-other_died cable bypass_ports lpt 0x278 1 plugged (omega arith) (inl (omega arith)) refl

-- A system that counts its calls.
abbrev open_file : Option (List ℕ) → ℕ → ℕ × ℕ
open_file name calls = (40, calls + 1)

abbrev control : ℕ → ℕ → ℕ → Bool × ℕ
control device code calls = (false, calls + 1)

abbrev enumerate : ℕ → ℕ → Buffers → ℕ → Option (ℕ × Buffers) × ℕ
enumerate key index b calls = (none, calls + 1)

abbrev query : ℕ → List ℕ → Buffers → ℕ → Option (ℕ × Buffers) × ℕ
query key name b calls = (none, calls + 1)

abbrev hooks : Hooks
hooks = record { win_io_hook_handle = 0; parallel_ports_key = 12 }

-- The system opens the key above as 77.
abbrev open_key : OpenKey ℕ
open_key key sub_key options sam_desired result calls = ((0, 77), calls + 1)

reg_open_key_filter-query_example :
    let (opened, (hooks', calls)) =
      reg_open_key_filter open_key hkey_local_machine
        (some parallel_ports)
        0
        key_read_values
        0
        (hooks, 0) in
    let b = asking (replicate 32 0) 32 (some (replicate 16 0)) 16 in
    let found = copy (stored lpt0_key) (replicate 32 0) in
    let got = some (copy (stored lpt0_value) (replicate 16 0)) in
    (opened ≡ some (0, 77))
    × (reg_enum_value_filter enumerate hooks' 77 0 b calls
        ≡ (some (error_success, answered found 17 got 5), 1))
    × (reg_query_value_filter query hooks' 77 lpt0_key b calls
        ≡ (some (error_success, answered (replicate 32 0) 32 got 5), 1))
    × (reg_enum_value_filter enumerate hooks' 77 1 b calls ≡ (some (error_no_more_items, b), 1))
reg_open_key_filter-query_example =
    reg_open_key_filter-query open_key enumerate query hooks 0 (replicate 32 0) (replicate 16 0) 32
      16 0 0 (omega arith) (omega arith)

-- Redirections that are a list, and the transaction.
abbrev Patches : Type 0
Patches = List Hook × Option (List Change)

abbrev transactions : Detours Patches
transactions = record {
  restore_after_with = λ w. w;
  begin = λ w. (w.0, opened w.1);
  attach = λ hook w. (w.0, noted (redirect hook) w.1);
  detach = λ hook w. (w.0, noted (give_back hook) w.1);
  commit = λ w. (settled w.1 w.0, none);
}

transactions-IsTransactional : IsTransactional transactions (λ w. w.0) (λ w. w.1)
transactions-IsTransactional = record {
  restored = λ w. (refl, refl);
  begun = λ w. (refl, refl);
  added = λ hook w. (refl, refl);
  removed = λ hook w. (refl, refl);
  committed = λ w. (refl, refl);
}

abbrev injectee_settings : InjecteeSettings
injectee_settings = record {
  use_mempatch = true;
  patch_winio_load = true;
  emulate_lpt_in_registry = false;
}

on_reason-on_reason_example :
    let w = on_reason transactions injectee_settings process_attach ([], none) in
    let w' = on_reason transactions injectee_settings process_detach w in
    (w.0 ≡ chosen_hooks injectee_settings ++ []) × (w.1 ≡ none) × (w'.0 ≡ []) × (w'.1 ≡ none)
unfolding on_reason
on_reason-on_reason_example =
    on_reason-on_reason transactions (λ w. w.0) (λ w. w.1) transactions-IsTransactional
      injectee_settings ([], none)
      (on_reason transactions injectee_settings process_attach ([], none)) refl refl refl
