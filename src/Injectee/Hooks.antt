-- ===== src/Injectee/Hooks.antt =====
-- What a patched program gets from the filters of
-- LptToUsbAdapter/LptPatchInjectee/LptPatchInjectee.c.
use lpt_to_usb_adapter.Base.{
  ℕ, ◌+◌, ◌≤◌, ◌≡◌, refl, Bool, true, Option, none, some, List, take, arith, leb, ltb, ◌==◌, ==_iff,
}
use lpt_to_usb_adapter.Injectee.Filters.{
  Hooks, Buffers, copy, stored, winio, winio_hook, lpt0_key, lpt0_value, reg_sz, error_success,
  error_no_more_items, create_file_filter, device_io_control_filter, reg_enum_value_filter,
  reg_query_value_filter,
}

module _ {W : Type 0} (true_create_file : Option (List ℕ) → W → ℕ × W)
    (true_device_io_control : ℕ → ℕ → W → Bool × W) where
  -- Whatever the system answers, a program that opened `\\.\WINIO` has every control code on the
  -- handle that it got answered with TRUE, without a call of the system.
  pub create_file_filter-device_io_control :
      (code : ℕ) (hooks : Hooks) (w : W)
      → let (handle, s) = create_file_filter true_create_file (some winio) (hooks, w) in
        device_io_control_filter true_device_io_control handle code s ≡ (true, s)
  unfolding create_file_filter device_io_control_filter
  create_file_filter-device_io_control code hooks w =
      let h = (true_create_file (some winio_hook) w).0 in rw ((==_iff h h).1 refl) refl

-- What a program passes that asks for the type, with or without a buffer for the value.
abbrev pub asking : List ℕ → ℕ → Option (List ℕ) → ℕ → Buffers
asking name cch value cb = record {
  value_name = some name;
  cch_value_name = cch;
  type = some 0;
  value = value;
  cb_value = cb;
}

abbrev pub answered : List ℕ → ℕ → Option (List ℕ) → ℕ → Buffers
answered name cch value cb = record (asking name cch value cb) { type = some reg_sz }

module _ {W : Type 0} (true_reg_enum_value : ℕ → ℕ → Buffers → W → Option (ℕ × Buffers) × W)
    (true_reg_query_value : ℕ → List ℕ → Buffers → W → Option (ℕ × Buffers) × W)
    (hooks : Hooks) where
  -- Under the key of the parallel ports, a program that asks for the type and has room for 18 and
  -- 5 bytes enumerates one value; a query of the name that it got gives the same value again, as
  -- REG_SZ of five bytes; every later item is none. The system is not called.
  pub reg_enum_value_filter-query :
      (name value : List ℕ) (cch cb next : ℕ) (w : W)
      → 18 ≤ cch
      → 5 ≤ cb
      → let key = hooks.parallel_ports_key in
        let b = asking name cch (some value) cb in
        let found = copy (stored lpt0_key) name in
        let got = some (copy (stored lpt0_value) value) in
        (reg_enum_value_filter true_reg_enum_value hooks key 0 b w
          ≡ (some (error_success, answered found 17 got 5), w))
        × (reg_query_value_filter true_reg_query_value hooks key (take 17 found) b w
            ≡ (some (error_success, answered name cch got 5), w))
        × (reg_enum_value_filter true_reg_enum_value hooks key (next + 1) b w
            ≡ (some (error_no_more_items, b), w))
  unfolding reg_enum_value_filter reg_query_value_filter
  reg_enum_value_filter-query name value cch cb next w name_room value_room =
      let key = hooks.parallel_ports_key in
      let same : (key == key) ≡ true = (==_iff key key).1 refl in
      let e₁ : leb 18 cch ≡ true = ground arith in
      let e₂ : leb 5 cb ≡ true = ground arith in
      let more : ltb 0 (next + 1) ≡ true = ground arith in
      (rw (same, e₁, e₂) refl, rw (same, e₂) refl, rw (same, more) refl)

  -- A query of the emulated value with a type and without a buffer succeeds, and the length keeps
  -- what the program passed, whatever that is.
  reg_query_value_filter-no_length :
      (name : List ℕ) (cch cb : ℕ) (w : W)
      → reg_query_value_filter true_reg_query_value hooks hooks.parallel_ports_key lpt0_key
          (asking name cch none cb)
          w
        ≡ (some (error_success, answered name cch none cb), w)
  unfolding reg_query_value_filter
  reg_query_value_filter-no_length name cch cb w =
      let key = hooks.parallel_ports_key in
      let same : (key == key) ≡ true = (==_iff key key).1 refl in rw same refl
