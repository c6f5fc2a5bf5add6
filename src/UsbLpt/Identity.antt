-- ===== src/UsbLpt/Identity.antt =====
-- What the texts that LptToUsbAdapter/UsbLptLib/UsbLptLib.c compares and copies say of a device.
use mathlib.Core.Path.{subst}
use lpt_to_usb_adapter.Base.{
  ℕ, zero, suc, ◌≤◌, ◌≡◌, refl, ap, ◌∙◌, ◌⊎◌, inl, inr, true, false, List, [], ◌∷◌, ◌++◌, length,
  take, replicate, arith, ◌==◌, ==_iff, Bool-cases,
}
use lpt_to_usb_adapter.Usb.Parsing.{Lacks}
use lpt_to_usb_adapter.Usb.Strings.{UsbString}
use lpt_to_usb_adapter.Usb.Enumeration.{UsbDeviceInfo}
use lpt_to_usb_adapter.UsbLpt.Listing.{
  wide_string, copy_text, same_text, names, is_adapter, is_dfu, author, product, product_dfu,
}

-- A buffer holds a C string: its characters, none of them 0, up to a 0 or the buffer's end.
abbrev pub Holds : List ℕ → List ℕ → Type 0
Holds buffer text =
    Lacks 0 text × ((buffer ≡ text) ⊎ ((rest : List ℕ) × (buffer ≡ text ++ 0 ∷ rest)))

-- A buffer of 128 characters with a text: zeros behind it, or only its start.
abbrev pub IsCut : List ℕ → List ℕ → Type 0
IsCut source buffer =
    (text : List ℕ) × Holds source text
    × (length buffer ≡ 128)
    × (((n : ℕ) × (buffer ≡ text ++ replicate n 0)) ⊎ ((rest : List ℕ) × (text ≡ buffer ++ rest)))

-- The first string of a chain is the text.
abbrev pub IsNamed : List UsbString → List ℕ → Type 0
IsNamed chain text =
    (str : UsbString) × (next : List UsbString) × (chain ≡ str ∷ next) × Holds str.string text

-- A device with the two identifiers, of the manufacturer "a.sakharov", and of this name.
abbrev pub IsDevice : List ℕ → UsbDeviceInfo → Type 0
IsDevice text info =
    (info.vid ≡ 0x1209)
    × (info.pid ≡ 0x4153)
    × IsNamed info.manufacturer
        (b'a' ∷ b'.' ∷ b's' ∷ b'a' ∷ b'k' ∷ b'h' ∷ b'a' ∷ b'r' ∷ b'o' ∷ b'v' ∷ [])
    × IsNamed info.product_name text

-- "Virtual EPP"
abbrev pub running : List ℕ
running = b'V' ∷ b'i' ∷ b'r' ∷ b't' ∷ b'u' ∷ b'a' ∷ b'l' ∷ 32 ∷ b'E' ∷ b'P' ∷ b'P' ∷ []

-- "Virtual EPP DFU"
abbrev pub updating : List ℕ
updating =
    b'V' ∷ b'i' ∷ b'r' ∷ b't' ∷ b'u' ∷ b'a' ∷ b'l' ∷ 32 ∷ b'E' ∷ b'P' ∷ b'P' ∷ 32 ∷ b'D' ∷ b'F'
    ∷ b'U' ∷ []

pub wide_string-Holds : (buffer : List ℕ) → Holds buffer (wide_string buffer)
wide_string-Holds [] = (tt, inl refl)
wide_string-Holds (c ∷ cs) = elim (Bool-cases (c == 0)) [
  | inl end ↦ rw end (tt, inr (cs, ap (λ x. x ∷ cs) ((==_iff c 0).0 end)))
  | inr other ↦
      let (lacks, holds) = wide_string-Holds cs in
      let differs : Lacks 0 (c ∷ wide_string cs) = ((λ e. ground (arith, e, other)), lacks) in
      rw other (
        differs,
        elim holds [ inl all ↦ inl (ap (◌∷◌ c) all) | inr (rest, e) ↦ inr (rest, ap (◌∷◌ c) e) ],
      )
]

wide_string-whole : (text : List ℕ) → Lacks 0 text → wide_string text ≡ text
wide_string-whole [] lacks = refl
wide_string-whole (c ∷ cs) (other, lacks) = rw (wide_string-whole cs lacks) (ground (arith, other))

wide_string-ended : (text rest : List ℕ) → Lacks 0 text → wide_string (text ++ 0 ∷ rest) ≡ text
wide_string-ended [] rest lacks = refl
wide_string-ended (c ∷ cs) rest (other, lacks) =
    rw (wide_string-ended cs rest lacks) (ground (arith, other))

wide_string-held : (buffer text : List ℕ) → Holds buffer text → wide_string buffer ≡ text
wide_string-held buffer text (lacks, inl all) = ap wide_string all ∙ wide_string-whole text lacks
wide_string-held buffer text (lacks, inr (rest, e)) =
    ap wide_string e ∙ wide_string-ended text rest lacks

take-replicate : (n k : ℕ) → n ≤ k → take n (replicate {A = ℕ} k 0) ≡ replicate n 0
take-replicate zero k few = refl
take-replicate (suc n) zero few = absurd (omega (arith, few))
take-replicate (suc n) (suc k) few = ap (◌∷◌ 0) (take-replicate n k (omega (arith, few)))

length-zeros : (n : ℕ) → length (replicate {A = ℕ} n 0) ≡ n
length-zeros zero = refl
length-zeros (suc n) = omega (arith, length-zeros n)

take-padded :
    (n k : ℕ) (text : List ℕ)
    → n ≤ k
    → let buffer = take n (text ++ replicate k 0) in
      (length buffer ≡ n)
      × (((j : ℕ) × (buffer ≡ text ++ replicate j 0)) ⊎ ((rest : List ℕ) × (text ≡ buffer ++ rest)))
take-padded zero k text few = (refl, inr (text, refl))
take-padded (suc n) k [] few =
    let e = take-replicate (suc n) k few in (ap length e ∙ length-zeros (suc n), inl (suc n, e))
take-padded (suc n) k (c ∷ cs) few =
    let (long, split) = take-padded n k cs (omega (arith, few)) in
    (
      omega (arith, long),
      elim split [ inl (j, e) ↦ inl (j, ap (◌∷◌ c) e) | inr (rest, e) ↦ inr (rest, ap (◌∷◌ c) e) ],
    )

pub copy_text-IsCut : (source : List ℕ) → IsCut source (copy_text source)
copy_text-IsCut source =
    let (long, split) = take-padded 128 128 (wide_string source) (omega arith) in
    (wide_string source, wide_string-Holds source, long, split)

same_text_refl : (s : List ℕ) → same_text s s ≡ true
same_text_refl [] = refl
same_text_refl (c ∷ cs) = rw ((==_iff c c).1 refl, same_text_refl cs) refl

same_text_equal : (s t : List ℕ) → same_text s t ≡ true → s ≡ t
same_text_equal [] [] e = refl
same_text_equal [] (y ∷ t) e = ground (arith, e)
same_text_equal (x ∷ s) [] e = ground (arith, e)
same_text_equal (x ∷ s) (y ∷ t) e = elim (Bool-cases (x == y)) [
  | inl first ↦
      let rest = same_text_equal s t (rw⁻¹ e (rw first refl)) in
      ap (λ c. c ∷ s) ((==_iff x y).0 first) ∙ ap (◌∷◌ y) rest
  | inr other ↦ ground (arith, e, other)
]

names-IsNamed :
    (chain : List UsbString) (text : List ℕ) → names chain text ≡ true → IsNamed chain text
names-IsNamed [] text e = absurd (ground (arith, e))
names-IsNamed (str ∷ next) text e = (
  str,
  next,
  refl,
  subst (Holds str.string) (same_text_equal (wide_string str.string) text e)
      (wide_string-Holds str.string),
)

IsNamed-names :
    (chain : List UsbString) (text : List ℕ) → IsNamed chain text → names chain text ≡ true
IsNamed-names chain text (str, next, e, holds) =
    ap (λ c. names c text) e
    ∙ ap (λ s. same_text s text) (wide_string-held str.string text holds)
    ∙ same_text_refl text

pub is_adapter-running :
    (info : UsbDeviceInfo) → is_adapter info ≡ true → is_dfu info ≡ false → IsDevice running info
is_adapter-running info adapter plain = (
  ground (arith, adapter),
  ground (arith, adapter),
  names-IsNamed info.manufacturer author (ground (arith, adapter)),
  names-IsNamed info.product_name product (ground (arith, adapter, plain)),
)

pub is_adapter-updating :
    (info : UsbDeviceInfo) → is_adapter info ≡ true → is_dfu info ≡ true → IsDevice updating info
is_adapter-updating info adapter dfu = (
  ground (arith, adapter),
  ground (arith, adapter),
  names-IsNamed info.manufacturer author (ground (arith, adapter)),
  names-IsNamed info.product_name product_dfu dfu,
)

pub other-neither :
    (info : UsbDeviceInfo)
    → is_adapter info ≡ false
    → ¬ (IsDevice running info) × ¬ (IsDevice updating info)
other-neither info other = (
  (λ (vid, pid, manufacturer, name).
      let by = IsNamed-names info.manufacturer author manufacturer in
      let called = IsNamed-names info.product_name product name in
      ground (arith, other, vid, pid, by, called)),
  (λ (vid, pid, manufacturer, name).
      let by = IsNamed-names info.manufacturer author manufacturer in
      let called = IsNamed-names info.product_name product_dfu name in
      ground (arith, other, vid, pid, by, called)),
)
