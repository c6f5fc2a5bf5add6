-- ===== src/Injectee/Filters.antt =====
-- The filters of LptToUsbAdapter/LptPatchInjectee/LptPatchInjectee.c, over the system calls that
-- they stand before.
use lpt_to_usb_adapter.Base.{
  ℕ, Bool, true, false, ◌&&◌, Option, none, some, List, [], ◌∷◌, ◌++◌, length, drop, ltb, leb, ◌==◌,
  if◌then◌else◌,
}

-- `strcmp(a, b) == 0`
abbrev pub same_string : List ℕ → List ℕ → Bool
same_string [] [] = true
same_string [] (y ∷ ys) = false
same_string (x ∷ xs) [] = false
same_string (x ∷ xs) (y ∷ ys) = (x == y) && same_string xs ys

-- `memcpy` to the start of a buffer.
abbrev pub copy : List ℕ → List ℕ → List ℕ
copy bytes buffer = bytes ++ drop (length bytes) buffer

abbrev pub winio : List ℕ
winio = b'\\' ∷ b'\\' ∷ b'.' ∷ b'\\' ∷ b'W' ∷ b'I' ∷ b'N' ∷ b'I' ∷ b'O' ∷ []

abbrev pub winio_hook : List ℕ
winio_hook = b'w' ∷ b'i' ∷ b'n' ∷ b'i' ∷ b'o' ∷ b'.' ∷ b'h' ∷ b'o' ∷ b'o' ∷ b'k' ∷ []

-- `LPT0_KEY` and `LPT0_VALUE` without their zero bytes.
abbrev pub lpt0_key : List ℕ
lpt0_key =
    b'\\' ∷ b'd' ∷ b'e' ∷ b'v' ∷ b'i' ∷ b'c' ∷ b'e' ∷ b'\\' ∷ b'p' ∷ b'a' ∷ b'r' ∷ b'a' ∷ b'l'
    ∷ b'l' ∷ b'e' ∷ b'l' ∷ b'0' ∷ []

abbrev pub lpt0_value : List ℕ
lpt0_value = b'L' ∷ b'P' ∷ b'T' ∷ b'0' ∷ []

-- A string in memory.
abbrev pub stored : List ℕ → List ℕ
stored s = s ++ 0 ∷ []

abbrev pub error_success : ℕ
error_success = 0

abbrev pub error_no_more_items : ℕ
error_no_more_items = 259

abbrev pub reg_sz : ℕ
reg_sz = 1

-- The statics of the library.
pub record Hooks : Type 0 where
  pub win_io_hook_handle : ℕ
  pub parallel_ports_key : ℕ

-- What the caller of a registry function passes by pointers; `none` is NULL.
pub record Buffers : Type 0 where
  pub value_name : Option (List ℕ)
  pub cch_value_name : ℕ
  pub type : Option ℕ
  pub value : Option (List ℕ)
  pub cb_value : ℕ

-- `CreateFileA_filter`, over the true function of a name that may be NULL.
unfoldable pub create_file_filter :
    {W : Type 0} → (Option (List ℕ) → W → ℕ × W) → Option (List ℕ) → Hooks × W → ℕ × (Hooks × W)
create_file_filter true_create_file none (hooks, w) =
    let (h, w') = true_create_file none w in (h, (hooks, w'))
create_file_filter true_create_file (some name) (hooks, w) =
    if same_string name winio
    then (let (h, w') = true_create_file (some winio_hook) w in
        (h, (record hooks { win_io_hook_handle = h }, w')))
    else (let (h, w') = true_create_file (some name) w in (h, (hooks, w')))

-- `DeviceIoControl_filter`
unfoldable pub device_io_control_filter :
    {W : Type 0} → (ℕ → ℕ → W → Bool × W) → ℕ → ℕ → Hooks × W → Bool × (Hooks × W)
device_io_control_filter true_device_io_control device code (hooks, w) =
    if hooks.win_io_hook_handle == device
    then (true, (hooks, w))
    else (let (r, w') = true_device_io_control device code w in (r, (hooks, w')))

-- The name and the value that are given out, where there is a buffer of enough room.
abbrev fill_name : Buffers → Buffers
fill_name b = elim b.value_name [
  | none ↦ b
  | some buffer ↦ record b {
    value_name = some (
        if leb (length (stored lpt0_key)) b.cch_value_name
        then copy (stored lpt0_key) buffer
        else buffer);
    cch_value_name = length lpt0_key;
  }
]

abbrev fill_value : Buffers → Buffers
fill_value b = elim b.value [
  | none ↦ b
  | some buffer ↦ record b {
    value = some (
        if leb (length (stored lpt0_value)) b.cb_value
        then copy (stored lpt0_value) buffer
        else buffer);
    cb_value = length (stored lpt0_value);
  }
]

-- `RegEnumValueA_filter`; `none` is a write through a NULL `lpType`.
unfoldable pub reg_enum_value_filter :
    {W : Type 0}
    → (ℕ → ℕ → Buffers → W → Option (ℕ × Buffers) × W)
    → Hooks
    → ℕ
    → ℕ
    → Buffers
    → W
    → Option (ℕ × Buffers) × W
reg_enum_value_filter true_reg_enum_value hooks key index b w =
    if key == hooks.parallel_ports_key
    then (if ltb 0 index then (some (error_no_more_items, b), w) else elim b.type [
      | none ↦ (none, w)
      | some t ↦ (some (error_success, fill_value (record (fill_name b) { type = some reg_sz })), w)
    ])
    else true_reg_enum_value key index b w

-- `RegQueryValueExA_filter`
unfoldable pub reg_query_value_filter :
    {W : Type 0}
    → (ℕ → List ℕ → Buffers → W → Option (ℕ × Buffers) × W)
    → Hooks
    → ℕ
    → List ℕ
    → Buffers
    → W
    → Option (ℕ × Buffers) × W
reg_query_value_filter true_reg_query_value hooks key name b w =
    if (key == hooks.parallel_ports_key) && same_string name lpt0_key
    then (
      some (
        error_success,
        fill_value (record b { type = elim b.type [ none ↦ none | some t ↦ some reg_sz ] }),
      ),
      w,
    )
    else true_reg_query_value key name b w
