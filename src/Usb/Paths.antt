-- ===== src/Usb/Paths.antt =====
-- The parsers of device paths and locations in LptToUsbAdapter/UsbLptLib/UsbWrappers.c. What
-- `_stscanf_s` stores for `%4hx` and `%4hu` is a parameter; it stores nothing on `none`.
use lpt_to_usb_adapter.Base.{
  ℕ, Bool, true, false, ◌&&◌, Option, none, some, List, [], ◌∷◌, drop, length, ltb, ◌==◌,
  if◌then◌else◌,
}

abbrev pub starts_with : List ℕ → List ℕ → Bool
starts_with [] s = true
starts_with (c ∷ cs) [] = false
starts_with (c ∷ cs) (x ∷ xs) = (c == x) && starts_with cs xs

-- `_tcsstr`: the string from the first occurrence on.
unfoldable pub find : List ℕ → List ℕ → Option (List ℕ)
find needle [] = if starts_with needle [] then some [] else none
find needle (x ∷ xs) =
    let rest = find needle xs in if starts_with needle (x ∷ xs) then some (x ∷ xs) else rest

abbrev pub vid_mark : List ℕ
vid_mark = b'v' ∷ b'i' ∷ b'd' ∷ b'_' ∷ []

abbrev pub pid_mark : List ℕ
pid_mark = b'p' ∷ b'i' ∷ b'd' ∷ b'_' ∷ []

abbrev pub port_mark : List ℕ
port_mark = b'P' ∷ b'o' ∷ b'r' ∷ b't' ∷ b'_' ∷ b'#' ∷ []

abbrev pub hub_mark : List ℕ
hub_mark = b'H' ∷ b'u' ∷ b'b' ∷ b'_' ∷ b'#' ∷ []

-- `p && _tcslen(p) >= n`, and then `p` behind its mark.
abbrev pub behind : List ℕ → ℕ → List ℕ → Option (List ℕ)
behind mark n path = elim (find mark path) [
  | none ↦ none
  | some s ↦ if ltb (length s) n then none else some (drop (length mark) s)
]

-- Both marks are looked for before either number is read.
abbrev pub both :
    (List ℕ → Option ℕ) → Option (List ℕ) → Option (List ℕ) → Option (Option ℕ × Option ℕ)
both scan none q = none
both scan (some p) none = none
both scan (some p) (some q) = some (scan p, scan q)

-- `DevicePathToVidPid`: what is stored, after a return of true.
unfoldable pub device_path_to_vid_pid : (List ℕ → Option ℕ) → List ℕ → Option (Option ℕ × Option ℕ)
device_path_to_vid_pid scan_hex path =
    both scan_hex (behind vid_mark 8 path) (behind pid_mark 8 path)

-- `DeviceLocationToPortHub`
unfoldable pub device_location_to_port_hub :
    (List ℕ → Option ℕ) → List ℕ → Option (Option ℕ × Option ℕ)
device_location_to_port_hub scan_decimal path =
    both scan_decimal (behind port_mark 10 path) (behind hub_mark 9 path)
