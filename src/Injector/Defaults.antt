-- ===== src/Injector/Defaults.antt =====
-- The names and the values of the settings that `LoadSettings` of
-- LptToUsbAdapter/LptPatchInjector/CommonCode.c knows.
use lpt_to_usb_adapter.Base.{ℕ, Option, none, some, List, [], ◌∷◌}

abbrev pub key_target : List ℕ
key_target = b't' ∷ b'a' ∷ b'r' ∷ b'g' ∷ b'e' ∷ b't' ∷ []

abbrev pub key_application_path : List ℕ
key_application_path =
    b't' ∷ b'a' ∷ b'r' ∷ b'g' ∷ b'e' ∷ b't' ∷ b':' ∷ b'a' ∷ b'p' ∷ b'p' ∷ b'l' ∷ b'i' ∷ b'c' ∷ b'a'
    ∷ b't' ∷ b'i' ∷ b'o' ∷ b'n' ∷ b'_' ∷ b'p' ∷ b'a' ∷ b't' ∷ b'h' ∷ []

abbrev pub key_behavior : List ℕ
key_behavior = b'b' ∷ b'e' ∷ b'h' ∷ b'a' ∷ b'v' ∷ b'i' ∷ b'o' ∷ b'r' ∷ []

abbrev pub key_use_mempatch : List ℕ
key_use_mempatch =
    b'b' ∷ b'e' ∷ b'h' ∷ b'a' ∷ b'v' ∷ b'i' ∷ b'o' ∷ b'r' ∷ b':' ∷ b'u' ∷ b's' ∷ b'e' ∷ b'_' ∷ b'm'
    ∷ b'e' ∷ b'm' ∷ b'p' ∷ b'a' ∷ b't' ∷ b'c' ∷ b'h' ∷ []

abbrev pub key_bypass_ports : List ℕ
key_bypass_ports =
    b'b' ∷ b'e' ∷ b'h' ∷ b'a' ∷ b'v' ∷ b'i' ∷ b'o' ∷ b'r' ∷ b':' ∷ b'b' ∷ b'y' ∷ b'p' ∷ b'a' ∷ b's'
    ∷ b's' ∷ b'_' ∷ b'p' ∷ b'o' ∷ b'r' ∷ b't' ∷ b's' ∷ []

abbrev pub key_patch_winio_load : List ℕ
key_patch_winio_load =
    b'b' ∷ b'e' ∷ b'h' ∷ b'a' ∷ b'v' ∷ b'i' ∷ b'o' ∷ b'r' ∷ b':' ∷ b'p' ∷ b'a' ∷ b't' ∷ b'c' ∷ b'h'
    ∷ b'_' ∷ b'w' ∷ b'i' ∷ b'n' ∷ b'i' ∷ b'o' ∷ b'_' ∷ b'l' ∷ b'o' ∷ b'a' ∷ b'd' ∷ []

abbrev pub key_emulate_lpt_in_registry : List ℕ
key_emulate_lpt_in_registry =
    b'b' ∷ b'e' ∷ b'h' ∷ b'a' ∷ b'v' ∷ b'i' ∷ b'o' ∷ b'r' ∷ b':' ∷ b'e' ∷ b'm' ∷ b'u' ∷ b'l' ∷ b'a'
    ∷ b't' ∷ b'e' ∷ b'_' ∷ b'l' ∷ b'p' ∷ b't' ∷ b'_' ∷ b'i' ∷ b'n' ∷ b'_' ∷ b'r' ∷ b'e' ∷ b'g'
    ∷ b'i' ∷ b's' ∷ b't' ∷ b'r' ∷ b'y' ∷ []

abbrev pub key_lpt : List ℕ
key_lpt = b'l' ∷ b'p' ∷ b't' ∷ []

abbrev pub key_base_address : List ℕ
key_base_address =
    b'l' ∷ b'p' ∷ b't' ∷ b':' ∷ b'b' ∷ b'a' ∷ b's' ∷ b'e' ∷ b'_' ∷ b'a' ∷ b'd' ∷ b'd' ∷ b'r' ∷ b'e'
    ∷ b's' ∷ b's' ∷ []

abbrev pub key_mode : List ℕ
key_mode = b'l' ∷ b'p' ∷ b't' ∷ b':' ∷ b'm' ∷ b'o' ∷ b'd' ∷ b'e' ∷ []

abbrev pub key_logging : List ℕ
key_logging = b'l' ∷ b'o' ∷ b'g' ∷ b'g' ∷ b'i' ∷ b'n' ∷ b'g' ∷ []

abbrev pub key_enabled : List ℕ
key_enabled =
    b'l' ∷ b'o' ∷ b'g' ∷ b'g' ∷ b'i' ∷ b'n' ∷ b'g' ∷ b':' ∷ b'e' ∷ b'n' ∷ b'a' ∷ b'b' ∷ b'l' ∷ b'e'
    ∷ b'd' ∷ []

abbrev pub key_file_intercepted_calls : List ℕ
key_file_intercepted_calls =
    b'l' ∷ b'o' ∷ b'g' ∷ b'g' ∷ b'i' ∷ b'n' ∷ b'g' ∷ b':' ∷ b'f' ∷ b'i' ∷ b'l' ∷ b'e' ∷ b'_' ∷ b'i'
    ∷ b'n' ∷ b't' ∷ b'e' ∷ b'r' ∷ b'c' ∷ b'e' ∷ b'p' ∷ b't' ∷ b'e' ∷ b'd' ∷ b'_' ∷ b'c' ∷ b'a'
    ∷ b'l' ∷ b'l' ∷ b's' ∷ []

abbrev pub key_file_patched_areas : List ℕ
key_file_patched_areas =
    b'l' ∷ b'o' ∷ b'g' ∷ b'g' ∷ b'i' ∷ b'n' ∷ b'g' ∷ b':' ∷ b'f' ∷ b'i' ∷ b'l' ∷ b'e' ∷ b'_' ∷ b'p'
    ∷ b'a' ∷ b't' ∷ b'c' ∷ b'h' ∷ b'e' ∷ b'd' ∷ b'_' ∷ b'a' ∷ b'r' ∷ b'e' ∷ b'a' ∷ b's' ∷ []

abbrev pub key_file_errors : List ℕ
key_file_errors =
    b'l' ∷ b'o' ∷ b'g' ∷ b'g' ∷ b'i' ∷ b'n' ∷ b'g' ∷ b':' ∷ b'f' ∷ b'i' ∷ b'l' ∷ b'e' ∷ b'_' ∷ b'e'
    ∷ b'r' ∷ b'r' ∷ b'o' ∷ b'r' ∷ b's' ∷ []

-- The table of the defaults; the name of the program is a parameter.
abbrev pub defaults : List ℕ → List (List ℕ × Option (List ℕ))
defaults application_name =
    (key_target, none)
    ∷ (key_application_path, some application_name)
    ∷ (key_behavior, none)
    ∷ (key_use_mempatch, some (b'T' ∷ b'r' ∷ b'u' ∷ b'e' ∷ []))
    ∷ (
      key_bypass_ports,
      some (
          b'0' ∷ b'x' ∷ b'7' ∷ b'7' ∷ b'A' ∷ b' ' ∷ b'0' ∷ b'x' ∷ b'2' ∷ b'F' ∷ b'8' ∷ b' ' ∷ b'0'
          ∷ b'x' ∷ b'2' ∷ b'F' ∷ b'9' ∷ b' ' ∷ b'0' ∷ b'x' ∷ b'2' ∷ b'F' ∷ b'A' ∷ b' ' ∷ b'0' ∷ b'x'
          ∷ b'2' ∷ b'F' ∷ b'B' ∷ b' ' ∷ b'0' ∷ b'x' ∷ b'2' ∷ b'F' ∷ b'C' ∷ b' ' ∷ b'0' ∷ b'x' ∷ b'2'
          ∷ b'F' ∷ b'D' ∷ b' ' ∷ b'0' ∷ b'x' ∷ b'2' ∷ b'F' ∷ b'E' ∷ b' ' ∷ b'0' ∷ b'x' ∷ b'2' ∷ b'F'
          ∷ b'F' ∷ []),
    )
    ∷ (key_patch_winio_load, some (b'T' ∷ b'r' ∷ b'u' ∷ b'e' ∷ []))
    ∷ (key_emulate_lpt_in_registry, some (b'T' ∷ b'r' ∷ b'u' ∷ b'e' ∷ []))
    ∷ (key_lpt, none)
    ∷ (key_base_address, some (b'0' ∷ b'x' ∷ b'3' ∷ b'7' ∷ b'8' ∷ []))
    ∷ (key_mode, some (b'E' ∷ b'P' ∷ b'P' ∷ []))
    ∷ (key_logging, none)
    ∷ (key_enabled, some (b'F' ∷ b'a' ∷ b'l' ∷ b's' ∷ b'e' ∷ []))
    ∷ (
      key_file_intercepted_calls,
      some (b'c' ∷ b'a' ∷ b'l' ∷ b'l' ∷ b's' ∷ b'.' ∷ b'l' ∷ b'o' ∷ b'g' ∷ []),
    )
    ∷ (
      key_file_patched_areas,
      some (b'p' ∷ b'a' ∷ b't' ∷ b'c' ∷ b'h' ∷ b'e' ∷ b's' ∷ b'.' ∷ b'l' ∷ b'o' ∷ b'g' ∷ []),
    )
    ∷ (
      key_file_errors,
      some (b'e' ∷ b'r' ∷ b'r' ∷ b'o' ∷ b'r' ∷ b's' ∷ b'.' ∷ b'l' ∷ b'o' ∷ b'g' ∷ []),
    )
    ∷ []
