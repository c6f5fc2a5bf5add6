-- ===== src/Injectee/Registry.antt =====
-- `RegOpenKeyExA_filter` of LptToUsbAdapter/LptPatchInjectee/LptPatchInjectee.c, before the other
-- filters of the registry.
use lpt_to_usb_adapter.Base.{
  ℕ, ◌+◌, ◌≤◌, ◌≡◌, refl, ◌&&◌, Option, none, some, List, [], ◌∷◌, ◌++◌, take, ◌==◌, if◌then◌else◌,
}
use lpt_to_usb_adapter.Injectee.Filters.{
  Hooks, Buffers, same_string, copy, stored, lpt0_key, lpt0_value, error_success,
  error_no_more_items, reg_enum_value_filter, reg_query_value_filter,
}
use lpt_to_usb_adapter.Injectee.Hooks.{asking, answered, reg_enum_value_filter-query}

abbrev pub hkey_local_machine : ℕ
hkey_local_machine = 0x80000002

-- "HARDWARE\\DEVICEMAP" and, behind it, "\\PARALLEL PORTS"
abbrev pub device_map : List ℕ
device_map =
    b'H' ∷ b'A' ∷ b'R' ∷ b'D' ∷ b'W' ∷ b'A' ∷ b'R' ∷ b'E' ∷ b'\\' ∷ b'D' ∷ b'E' ∷ b'V' ∷ b'I' ∷ b'C'
    ∷ b'E' ∷ b'M' ∷ b'A' ∷ b'P' ∷ []

abbrev pub parallel_ports : List ℕ
parallel_ports =
    device_map
    ++ (b'\\' ∷ b'P' ∷ b'A' ∷ b'R' ∷ b'A' ∷ b'L' ∷ b'L' ∷ b'E' ∷ b'L' ∷ b' ' ∷ b'P' ∷ b'O' ∷ b'R'
        ∷ b'T' ∷ b'S' ∷ [])

-- `KEY_ENUMERATE_SUB_KEYS | KEY_QUERY_VALUE`
abbrev pub key_read_values : ℕ
key_read_values = 0x8 + 0x1

-- The true function gives its status and `*phkResult` behind it, which it may leave.
abbrev pub OpenKey : Type 0 → Type 0
OpenKey W = ℕ → Option (List ℕ) → ℕ → ℕ → ℕ → W → (ℕ × ℕ) × W

module _ {W : Type 0} (true_reg_open_key : OpenKey W) where
  abbrev open_true : ℕ → Option (List ℕ) → ℕ → ℕ → ℕ → Hooks × W → Option (ℕ × ℕ) × (Hooks × W)
  open_true key sub_key options sam_desired result (hooks, w) =
      let (r, w') = true_reg_open_key key sub_key options sam_desired result w in
      (some r, (hooks, w'))

  -- The key of the parallel ports is opened as that above it, and its handle is kept.
  abbrev open_parallel_ports : ℕ → ℕ → ℕ → ℕ → Hooks × W → Option (ℕ × ℕ) × (Hooks × W)
  open_parallel_ports key options sam_desired result (hooks, w) =
      let (r, w') = true_reg_open_key key (some device_map) options sam_desired result w in
      (some r, (record hooks { parallel_ports_key = r.1 }, w'))

  -- `RegOpenKeyExA_filter`; `none` is `strcmp` of a NULL name.
  unfoldable pub reg_open_key_filter :
      ℕ → Option (List ℕ) → ℕ → ℕ → ℕ → Hooks × W → Option (ℕ × ℕ) × (Hooks × W)
  reg_open_key_filter key none options sam_desired result s =
      if key == hkey_local_machine
      then (none, s)
      else open_true key none options sam_desired result s
  reg_open_key_filter key (some sub_key) options sam_desired result s =
      if (key == hkey_local_machine)
        && same_string sub_key parallel_ports
        && (options == 0)
        && (sam_desired == key_read_values)
      then open_parallel_ports key options sam_desired result s
      else open_true key (some sub_key) options sam_desired result s

  module _ (true_reg_enum_value : ℕ → ℕ → Buffers → W → Option (ℕ × Buffers) × W)
      (true_reg_query_value : ℕ → List ℕ → Buffers → W → Option (ℕ × Buffers) × W) where
    -- A program that opens the key of the parallel ports to read its values gets a handle of the
    -- key above it, and with this handle, the type and room for 18 and 5 bytes enumerates one
    -- value: a query of the name that it got gives the same value again, as REG_SZ of five bytes,
    -- and every later item is none, without a call of the system.
    pub reg_open_key_filter-query :
        (hooks : Hooks) (result : ℕ) (name value : List ℕ) (cch cb next : ℕ) (w : W)
        → 18 ≤ cch
        → 5 ≤ cb
        → let (opened, (hooks', w')) =
            reg_open_key_filter hkey_local_machine
              (some parallel_ports)
              0
              key_read_values
              result
              (hooks, w) in
          let ((status, key), w₁) =
            true_reg_open_key hkey_local_machine (some device_map) 0 key_read_values result w in
          let b = asking name cch (some value) cb in
          let found = copy (stored lpt0_key) name in
          let got = some (copy (stored lpt0_value) value) in
          (opened ≡ some (status, key))
          × (reg_enum_value_filter true_reg_enum_value hooks' key 0 b w'
              ≡ (some (error_success, answered found 17 got 5), w₁))
          × (reg_query_value_filter true_reg_query_value hooks' key (take 17 found) b w'
              ≡ (some (error_success, answered name cch got 5), w₁))
          × (reg_enum_value_filter true_reg_enum_value hooks' key (next + 1) b w'
              ≡ (some (error_no_more_items, b), w₁))
    unfolding reg_open_key_filter
    reg_open_key_filter-query hooks result name value cch cb next w name_room value_room =
        let ((status, key), w₁) =
          true_reg_open_key hkey_local_machine (some device_map) 0 key_read_values result w in
        let (first, query, later) =
          reg_enum_value_filter-query true_reg_enum_value true_reg_query_value
            (record hooks { parallel_ports_key = key }) name value cch cb next w₁ name_room
            value_room in
        (refl, first, query, later)
