-- ===== src/Injector/LoadSettings.antt =====
-- `LoadSettings` of LptToUsbAdapter/LptPatchInjector/CommonCode.c, over the calls of iniparser.
use lpt_to_usb_adapter.Base.{
  ℕ, Bool, true, false, ◌||◌, Option, none, some, List, [], ◌∷◌, ◌++◌, map, ◌==◌, if◌then◌else◌,
  u16,
}
use lpt_to_usb_adapter.Injectee.Ports.{Outcome, died, returned}
use lpt_to_usb_adapter.Usb.Api.{M, pure, ◌>>◌, free}
use lpt_to_usb_adapter.Injector.Defaults

-- A dictionary of iniparser. A section is a key without a value.
pub record Iniparser (D : Type 0) : Type 0 where
  pub find_entry : D → List ℕ → Bool
  pub set : D → List ℕ → Option (List ℕ) → D
  pub getstring : D → List ℕ → Option (List ℕ) → Option (List ℕ)
  pub getboolean : D → List ℕ → Bool → Bool
  pub getint : D → List ℕ → ℕ → ℕ
  pub strtoul : List ℕ → ℕ

-- `struct LptPatchSettings_t`
pub record LptPatchSettings : Type 0 where
  pub application_path : List ℕ
  pub use_mempatch : Bool
  pub bypass_ports : List ℕ
  pub patch_winio_load : Bool
  pub emulate_lpt_in_registry : Bool
  pub base_address : ℕ
  pub mode : List ℕ
  pub logging_enabled : Bool
  pub file_intercepted_calls : List ℕ
  pub file_patched_areas : List ℕ
  pub file_errors : List ℕ

-- `strtok_s` with " ,": a character before the tokens of the rest, whose first is open if it starts
-- at once.
abbrev pub is_delimiter : ℕ → Bool
is_delimiter c = (c == b' ') || (c == b',')

abbrev pub close_token : List ℕ → List (List ℕ) → List (List ℕ)
close_token [] tokens = tokens
close_token (c ∷ cs) tokens = (c ∷ cs) ∷ tokens

-- The tokens, with the one that is being read.
unfoldable pub tokens_from : List ℕ → List ℕ → List (List ℕ)
tokens_from token [] = close_token token []
tokens_from token (c ∷ cs) =
    let ended = tokens_from [] cs in
    let more = tokens_from (token ++ c ∷ []) cs in
    if is_delimiter c then close_token token ended else more

module _ {D : Type 0} (ini : Iniparser D) where
  -- One round of the loop over the defaults: the dictionary, and `update_required`.
  abbrev pub add_default : List ℕ × Option (List ℕ) → D × Bool → D × Bool
  add_default (key, value) (d, update_required) =
      if ini.find_entry d key then (d, update_required) else (ini.set d key value, true)

  unfoldable pub add_defaults : List (List ℕ × Option (List ℕ)) → D × Bool → D × Bool
  add_defaults [] d = d
  add_defaults (entry ∷ entries) d = add_defaults entries (add_default entry d)

  -- `strtok_s` and `strtoul` over the list of ports.
  abbrev pub ports_of : List ℕ → List ℕ
  ports_of text = map (λ token. u16 (ini.strtoul token)) (tokens_from [] text)

  -- `strdup_die`
  abbrev dup : Option (List ℕ) → (List ℕ → Outcome LptPatchSettings) → Outcome LptPatchSettings
  dup none f = died
  dup (some text) f = f text

  -- The list of ports: NULL is no valid argument of the first call of `strtok_s`, which ends the
  -- program.
  abbrev tokenized :
      Option (List ℕ) → (List ℕ → Outcome LptPatchSettings) → Outcome LptPatchSettings
  tokenized none f = died
  tokenized (some text) f = f (ports_of text)

  unfoldable pub read_settings : D → Outcome LptPatchSettings
  read_settings d =
      dup (ini.getstring d Defaults.key_application_path (some [])) (λ application_path.
        dup (ini.getstring d Defaults.key_mode none) (λ mode.
          dup (ini.getstring d Defaults.key_file_intercepted_calls none) (λ intercepted_calls.
            dup (ini.getstring d Defaults.key_file_patched_areas none) (λ patched_areas.
              dup (ini.getstring d Defaults.key_file_errors none) (λ errors.
                tokenized (ini.getstring d Defaults.key_bypass_ports none) (λ ports.
                  returned (record {
                    application_path = application_path;
                    use_mempatch = ini.getboolean d Defaults.key_use_mempatch true;
                    bypass_ports = ports;
                    patch_winio_load = ini.getboolean d Defaults.key_patch_winio_load true;
                    emulate_lpt_in_registry =
                        ini.getboolean d Defaults.key_emulate_lpt_in_registry true;
                    base_address = u16 (ini.getint d Defaults.key_base_address 0x378);
                    mode = mode;
                    logging_enabled = ini.getboolean d Defaults.key_enabled true;
                    file_intercepted_calls = intercepted_calls;
                    file_patched_areas = patched_areas;
                    file_errors = errors;
                  })))))))

  -- The file is written if a default was added.
  abbrev save : Bool → D × Bool → Outcome (Option D)
  save file_opens (d, false) = returned none
  save file_opens (d, true) = if file_opens then returned (some d) else died

  abbrev with_written :
      Outcome (Option D) → Outcome LptPatchSettings → Outcome (Option D × LptPatchSettings)
  with_written died read = died
  with_written (returned file) died = died
  with_written (returned file) (returned settings) = returned (file, settings)

  abbrev completed : Bool → D × Bool → Outcome (Option D × LptPatchSettings)
  completed file_opens (d, update_required) =
      with_written (save file_opens (d, update_required)) (read_settings d)

  abbrev or_new : Option D → Option D → Option D
  or_new (some d) fresh = some d
  or_new none fresh = fresh

  abbrev with_dictionary : Bool → List ℕ → Option D → Outcome (Option D × LptPatchSettings)
  with_dictionary file_opens application_name none = died
  with_dictionary file_opens application_name (some d) =
      completed file_opens (add_defaults (Defaults.defaults application_name) (d, false))

  -- `LoadSettings`, from what `iniparser_load` and `dictionary_new` give, where memory is given:
  -- the dictionary that was written to the file, and the settings.
  unfoldable pub load_settings :
      Option D → Option D → Bool → List ℕ → Outcome (Option D × LptPatchSettings)
  load_settings loaded fresh file_opens application_name =
      with_dictionary file_opens application_name (or_new loaded fresh)

-- `FreeSettings`: the five strings, and the list of ports, which is NULL while there is no port.
abbrev free_ports : {W : Type 0} → List ℕ → M W (Unit {0})
free_ports [] = pure tt
free_ports (port ∷ ports) = free

unfoldable pub free_settings : {W : Type 0} → LptPatchSettings → M W (Unit {0})
free_settings settings =
    free >> (free >> (free >> (free >> (free >> free_ports settings.bypass_ports))))
