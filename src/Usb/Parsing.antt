-- ===== src/Usb/Parsing.antt =====
-- What the parsers of LptToUsbAdapter/UsbLptLib/UsbWrappers.c read out of the strings that Windows
-- writes.
use lpt_to_usb_adapter.Base.{
  ℕ, ◌+◌, ◌/◌, ◌%◌, ◌^◌, ◌<◌, ◌≡◌, ◌≢◌, ◌∙◌, refl, true, false, Option, some, List, [], ◌∷◌, ◌++◌,
  drop, length, ltb, ◌==◌, ==_iff, if◌then◌else◌, arith, Bool-cases, inl, inr,
}
use lpt_to_usb_adapter.Usb.Paths.{
  starts_with, find, behind, vid_mark, pid_mark, port_mark, hub_mark, device_path_to_vid_pid,
  device_location_to_port_hub,
}

-- A character does not occur in a string.
abbrev pub Lacks : ℕ → List ℕ → Type 0
Lacks c [] = Unit {0}
Lacks c (x ∷ xs) = (c ≢ x) × Lacks c xs

starts_with-append : (p rest : List ℕ) → starts_with p (p ++ rest) ≡ true
starts_with-append [] rest = refl
starts_with-append (c ∷ cs) rest = rw ((==_iff c c).1 refl) (starts_with-append cs rest)

-- What lacks the first character of a mark is passed over.
find-skip : (c : ℕ) (cs xs ys : List ℕ) → Lacks c xs → find (c ∷ cs) (xs ++ ys) ≡ find (c ∷ cs) ys
unfolding find
find-skip c cs [] ys clear = refl
find-skip c cs (x ∷ xs) ys (differ, clear) = elim (Bool-cases (c == x)) [
  | inl same ↦ absurd (differ ((==_iff c x).0 same))
  | inr other ↦ rw other (find-skip c cs xs ys clear)
]

-- A mark is found where it stands.
find-here : (c : ℕ) (cs rest : List ℕ) → find (c ∷ cs) (c ∷ (cs ++ rest)) ≡ some (c ∷ (cs ++ rest))
unfolding find
find-here c cs rest = rw ((==_iff c c).1 refl, starts_with-append cs rest) refl

Lacks-append : (c : ℕ) (xs ys : List ℕ) → Lacks c xs → Lacks c ys → Lacks c (xs ++ ys)
Lacks-append c [] ys p q = q
Lacks-append c (x ∷ xs) ys (differ, p) q = (differ, Lacks-append c xs ys p q)

-- Four digits.
abbrev pub hex_digit : ℕ → ℕ
hex_digit d = if ltb d 10 then 48 + d else 87 + d

abbrev pub hex4 : ℕ → List ℕ
hex4 n =
    hex_digit (n / 4096 % 16)
    ∷ hex_digit (n / 256 % 16)
    ∷ hex_digit (n / 16 % 16)
    ∷ hex_digit (n % 16)
    ∷ []

abbrev pub decimal4 : ℕ → List ℕ
decimal4 n = (48 + n / 1000 % 10) ∷ (48 + n / 100 % 10) ∷ (48 + n / 10 % 10) ∷ (48 + n % 10) ∷ []

hex_digit-lt : (d : ℕ) → d < 16 → hex_digit d < 103
hex_digit-lt d h = ground arith

hex4-Lacks : (n : ℕ) → Lacks b'p' (hex4 n)
hex4-Lacks n = (
  λ e. omega (arith, hex_digit-lt (n / 4096 % 16) (omega arith)),
  (
    λ e. omega (arith, hex_digit-lt (n / 256 % 16) (omega arith)),
    (
      λ e. omega (arith, hex_digit-lt (n / 16 % 16) (omega arith)),
      (λ e. omega (arith, hex_digit-lt (n % 16) (omega arith)), tt),
    ),
  ),
)

-- `_stscanf_s` reads four digits in front of anything.
abbrev pub Reads : (List ℕ → Option ℕ) → (ℕ → List ℕ) → ℕ → Type 0
Reads scan digits bound = (n : ℕ) (rest : List ℕ) → n < bound → scan (digits n ++ rest) ≡ some n

-- A device path as Windows writes it: text, the identifiers of the vendor and of the product in
-- four digits each, and text.
abbrev pub device_path : List ℕ → ℕ → ℕ → List ℕ → List ℕ
device_path before vid pid after =
    before ++ (vid_mark ++ (hex4 vid ++ b'&' ∷ (pid_mark ++ (hex4 pid ++ after))))

-- A location as Windows writes it, such as Port_#0001.Hub_#0003.
abbrev pub location : List ℕ → ℕ → ℕ → List ℕ → List ℕ
location before port hub after =
    before ++ (port_mark ++ (decimal4 port ++ b'.' ∷ (hub_mark ++ (decimal4 hub ++ after))))

-- With a scanner that reads four hexadecimal digits, the two identifiers of 16 bits in a device
-- path are read back, if no `v` and no `p` stands in front of the first mark.
pub device_path_to_vid_pid-device_path :
    (scan_hex : List ℕ → Option ℕ) (before after : List ℕ) (vid pid : ℕ)
    → Reads scan_hex hex4 (2 ^ 16)
    → Lacks b'v' before
    → Lacks b'p' before
    → vid < 2 ^ 16
    → pid < 2 ^ 16
    → device_path_to_vid_pid scan_hex (device_path before vid pid after) ≡ some (some vid, some pid)
unfolding device_path_to_vid_pid
device_path_to_vid_pid-device_path scan_hex before after vid pid reads no_v no_p v p =
    let tail = hex4 vid ++ b'&' ∷ (pid_mark ++ (hex4 pid ++ after)) in
    let first : find vid_mark (device_path before vid pid after) ≡ some (vid_mark ++ tail) =
      find-skip b'v' (drop 1 vid_mark) before (vid_mark ++ tail) no_v
      ∙ find-here b'v' (drop 1 vid_mark) tail in
    let second : find pid_mark (device_path before vid pid after)
        ≡ some (pid_mark ++ (hex4 pid ++ after)) =
      find-skip b'p' (drop 1 pid_mark) before (vid_mark ++ tail) no_p
      ∙ (find-skip b'p' (drop 1 pid_mark) (vid_mark ++ (hex4 vid ++ b'&' ∷ []))
            (pid_mark ++ (hex4 pid ++ after))
            (Lacks-append b'p' vid_mark (hex4 vid ++ b'&' ∷ []) (ground arith)
              (Lacks-append b'p' (hex4 vid) (b'&' ∷ []) (hex4-Lacks vid) (ground arith)))
          ∙ find-here b'p' (drop 1 pid_mark) (hex4 pid ++ after)) in
    let long₁ : ltb (length (vid_mark ++ tail)) 8 ≡ false = ground arith in
    let long₂ : ltb (length (pid_mark ++ (hex4 pid ++ after))) 8 ≡ false = ground arith in
    rw
      (
        behind,
        first,
        second,
        long₁,
        long₂,
        reads vid (b'&' ∷ (pid_mark ++ (hex4 pid ++ after))) v,
        reads pid after p,
      )
      refl

-- With a scanner that reads four decimal digits, a port and a hub below 10000 in a location are
-- read back, if no `P` and no `H` stands in front of the first mark.
device_location_to_port_hub-location :
    (scan_decimal : List ℕ → Option ℕ) (before after : List ℕ) (port hub : ℕ)
    → Reads scan_decimal decimal4 10000
    → Lacks b'P' before
    → Lacks b'H' before
    → port < 10000
    → hub < 10000
    → device_location_to_port_hub scan_decimal (location before port hub after)
      ≡ some (some port, some hub)
unfolding device_location_to_port_hub
device_location_to_port_hub-location scan_decimal before after port hub reads no_p no_h p h =
    let tail = decimal4 port ++ b'.' ∷ (hub_mark ++ (decimal4 hub ++ after)) in
    let first : find port_mark (location before port hub after) ≡ some (port_mark ++ tail) =
      find-skip b'P' (drop 1 port_mark) before (port_mark ++ tail) no_p
      ∙ find-here b'P' (drop 1 port_mark) tail in
    let second : find hub_mark (location before port hub after)
        ≡ some (hub_mark ++ (decimal4 hub ++ after)) =
      find-skip b'H' (drop 1 hub_mark) before (port_mark ++ tail) no_h
      ∙ (find-skip b'H' (drop 1 hub_mark) (port_mark ++ (decimal4 port ++ b'.' ∷ []))
            (hub_mark ++ (decimal4 hub ++ after)) (ground arith)
          ∙ find-here b'H' (drop 1 hub_mark) (decimal4 hub ++ after)) in
    let long₁ : ltb (length (port_mark ++ tail)) 10 ≡ false = ground arith in
    let long₂ : ltb (length (hub_mark ++ (decimal4 hub ++ after))) 9 ≡ false = ground arith in
    rw
      (
        behind,
        first,
        second,
        long₁,
        long₂,
        reads port (b'.' ∷ (hub_mark ++ (decimal4 hub ++ after))) p,
        reads hub after h,
      )
      refl
