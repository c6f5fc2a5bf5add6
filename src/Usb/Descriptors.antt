-- ===== src/Usb/Descriptors.antt =====
-- What `GetStringDescriptor` of LptToUsbAdapter/UsbLptLib/UsbWrappers.c makes of a descriptor.
use mathlib.Core.List.{append_assoc}
use lpt_to_usb_adapter.Base.{
  ℕ, zero, suc, ◌+◌, ◌-◌, ◌*◌, ◌/◌, ◌%◌, ◌^◌, ◌≤◌, ◌≡◌, ◌∙◌, refl, ap, true, false, some, List, [],
  ◌∷◌, ◌++◌, length, get_or, take, drop, replicate, length-append, arith,
}
use lpt_to_usb_adapter.Usb.Api.{Api, Host, ◌>>=◌, call}
use lpt_to_usb_adapter.Usb.Device.{overlay}
use lpt_to_usb_adapter.Usb.Setup.{SetupApi, request_size}
use lpt_to_usb_adapter.Usb.Strings.{
  wide_chars, string_buffer_size, string_descriptor_type, chars_of, get_string_descriptor,
  is_refused, string_request,
}

-- The characters of a string in memory.
abbrev pub char_bytes : List ℕ → List ℕ
char_bytes [] = []
char_bytes (c ∷ cs) = c % 2 ^ 8 ∷ c / 2 ^ 8 ∷ char_bytes cs

-- A hub's reply: the request, the length and the type of the descriptor, its characters.
abbrev pub string_reply : List ℕ → List ℕ → List ℕ
string_reply header chars =
    header ++ ((2 + 2 * length chars) ∷ string_descriptor_type ∷ char_bytes chars)

length-char_bytes : (cs : List ℕ) → length (char_bytes cs) ≡ 2 * length cs
length-char_bytes [] = omega arith
length-char_bytes (c ∷ cs) = omega (arith, length-char_bytes cs)

get_or-append :
    (xs : List ℕ) (n : ℕ) (ys : List ℕ) (k d : ℕ)
    → length xs ≡ n
    → get_or (xs ++ ys) (n + k) d ≡ get_or ys k d
get_or-append [] n ys k d e = ap (λ i. get_or ys i d) (omega arith)
get_or-append (x ∷ xs) n ys k d e =
    let e' : n + k ≡ suc (length xs + k) = omega arith in
    rw e' (get_or-append xs (length xs) ys k d refl)

drop-append : (xs ys : List ℕ) (n k : ℕ) → length xs ≡ n → drop (n + k) (xs ++ ys) ≡ drop k ys
drop-append [] ys n k e = ap (λ i. drop i ys) (omega arith)
drop-append (x ∷ xs) ys n k e =
    let e' : n + k ≡ suc (length xs + k) = omega arith in
    rw e' (drop-append xs ys (length xs) k refl)

abbrev zeros : ℕ → List ℕ
zeros n = replicate n 0

drop-replicate : (n k : ℕ) → drop n (zeros (n + k)) ≡ zeros k
drop-replicate zero k = ap (λ (i : ℕ). replicate i 0) (omega arith)
drop-replicate (suc n) k =
    let e : suc n + k ≡ suc (n + k) = omega arith in rw e (drop-replicate n k)

-- The characters are read with one more, a zero, if zeroes stand behind them.
wide_chars-char_bytes :
    (cs rest : List ℕ)
    → wide_chars (take (2 * length cs + 2) (char_bytes cs ++ (0 ∷ 0 ∷ rest))) ≡ cs ++ 0 ∷ []
wide_chars-char_bytes [] rest = refl
wide_chars-char_bytes (c ∷ cs) rest =
    let more : 2 * suc (length cs) + 2 ≡ suc (suc (2 * length cs + 2)) = omega arith in
    let whole : c % 256 + 256 * (c / 256) ≡ c = omega arith in
    rw (more, whole, wide_chars-char_bytes cs rest) refl

module _ (header chars : List ℕ) (twelve : length header ≡ request_size)
    (short : length chars ≤ 125) where
  abbrev size : ℕ
  size = 2 + 2 * length chars

  -- The descriptor, and the zeroes of the buffer behind it.
  abbrev descriptor : List ℕ
  descriptor =
      size ∷ string_descriptor_type ∷ (char_bytes chars ++ (0 ∷ 0 ∷ zeros (251 - 2 * length chars)))

  length-string_reply : length (string_reply header chars) ≡ request_size + size
  length-string_reply = omega (
    arith,
    length-append header (size ∷ string_descriptor_type ∷ char_bytes chars),
    length-char_bytes chars,
    twelve,
  )

  zeroes :
      drop (length (string_reply header chars)) (zeros string_buffer_size)
      ≡ 0 ∷ 0 ∷ zeros (251 - 2 * length chars)
  zeroes =
      let left = suc (suc (251 - 2 * length chars)) in
      let e : string_buffer_size ≡ request_size + size + left = omega arith in
      ap (λ n. drop (length (string_reply header chars)) (zeros n)) e
      ∙ rw length-string_reply (drop-replicate (request_size + size) left)

  buffer_lem : overlay (string_reply header chars) (zeros string_buffer_size) ≡ header ++ descriptor
  buffer_lem = rw zeroes (
      append_assoc header (size ∷ string_descriptor_type ∷ char_bytes chars)
        (0 ∷ 0 ∷ zeros (251 - 2 * length chars)))

  not_refused :
      is_refused
        (overlay (string_reply header chars) (zeros string_buffer_size))
        (length (string_reply header chars))
      ≡ false
  not_refused =
      rw
        (
          buffer_lem,
          get_or-append header 12 descriptor 0 0 twelve,
          get_or-append header 12 descriptor 1 0 twelve,
          length-string_reply,
        )
        (ground arith)

  -- The bytes that are copied, whatever stands behind the buffer.
  copied :
      (behind : ℕ)
      → wide_chars (take size (drop (request_size + 2) ((header ++ descriptor) ++ behind ∷ [])))
        ≡ chars ++ 0 ∷ []
  copied behind =
      let rest = zeros (251 - 2 * length chars) ++ behind ∷ [] in
      let e : (header ++ descriptor) ++ behind ∷ [] ≡ header ++ (descriptor ++ behind ∷ []) =
        append_assoc header descriptor (behind ∷ []) in
      let e' : (char_bytes chars ++ (0 ∷ 0 ∷ zeros (251 - 2 * length chars))) ++ behind ∷ []
          ≡ char_bytes chars ++ (0 ∷ 0 ∷ rest) =
        append_assoc (char_bytes chars) (0 ∷ 0 ∷ zeros (251 - 2 * length chars)) (behind ∷ []) in
      let e'' : size ≡ 2 * length chars + 2 = omega arith in
      rw (e, drop-append header (descriptor ++ behind ∷ []) 12 2 twelve, e', e'')
        (wide_chars-char_bytes chars rest)

  module _ {W : Type 0} (api : Api W) (setup : SetupApi W) where
    -- Where memory is given, the hub's reply with a string of at most 125 characters is read as
    -- these characters with their number, followed by a zero; two blocks are held on.
    pub get_string_descriptor-reads :
        (hub connection_index descriptor_index language : ℕ) (s : Host W) (w : W)
        → ((n : ℕ) (w : W) → api.malloc n w ≡ (true, w))
        → setup.get_descriptor hub
            (string_request api setup connection_index descriptor_index language)
            string_buffer_size
            s.world
          ≡ (some (string_reply header chars), w)
        → get_string_descriptor api setup hub connection_index descriptor_index language s ≡ (
          some (record { lang = language; length_chars = length chars; string = chars ++ 0 ∷ [] }),
          record s { world = w; allocated = s.allocated + 1 + 1 },
        )
    unfolding get_string_descriptor
    get_string_descriptor-reads hub connection_index descriptor_index language s w given reply =
        let n_chars : chars_of size ≡ length chars = ground arith in
        let b_length = get_or-append header 12 descriptor 0 0 twelve in
        rw
          (
            ◌>>=◌,
            call,
            reply,
            not_refused,
            buffer_lem,
            b_length,
            given 16 w,
            given size w,
            n_chars,
            copied (api.stack_byte w),
          )
          refl
