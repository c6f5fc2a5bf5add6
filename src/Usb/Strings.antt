-- ===== src/Usb/Strings.antt =====
-- The string descriptors of a device: `GetStringDescriptor`, `GetStringDescriptors` and
-- `FreeUsbString` of LptToUsbAdapter/UsbLptLib/UsbWrappers.c.
use lpt_to_usb_adapter.Base.{
  ℕ, ◌+◌, ◌-◌, ◌*◌, ◌/◌, ◌%◌, ◌^◌, Bool, not, ◌||◌, Option, none, some, List, [], ◌∷◌, ◌++◌, length,
  get_or, take, drop, replicate, ltb, ◌==◌, if◌then◌else◌, u32,
}
use lpt_to_usb_adapter.Usb.Api.{Api, M, pure, ◌>>=◌, ◌>>◌, call, peek, free, alloc}
use lpt_to_usb_adapter.Usb.Device.{overlay}
use lpt_to_usb_adapter.Usb.Setup.{SetupApi, DescriptorRequest, request_size}

-- `UsbString` less its link; a chain of them is a list.
pub record UsbString : Type 0 where
  pub lang : ℕ
  pub length_chars : ℕ
  pub string : List ℕ

-- `sizeof(USB_DESCRIPTOR_REQUEST) + MAXIMUM_USB_STRING_LENGTH`
abbrev pub string_buffer_size : ℕ
string_buffer_size = request_size + 255

abbrev pub string_descriptor_type : ℕ
string_descriptor_type = 3

-- A `wchar_t` buffer of the bytes.
abbrev pub wide_chars : List ℕ → List ℕ
wide_chars [] = []
wide_chars (x ∷ []) = []
wide_chars (x ∷ y ∷ bytes) = (x + 256 * y) ∷ wide_chars bytes

-- The checks on what came back in the buffer.
abbrev pub is_refused : List ℕ → ℕ → Bool
is_refused buffer returned =
    let b_length = get_or buffer request_size 0 in
    ltb returned 2
    || not (get_or buffer (request_size + 1) 0 == string_descriptor_type)
    || not (b_length == u32 (returned + 2 ^ 32 - request_size))
    || not (b_length % 2 == 0)

-- `(bLength - 2) / 2`, as a `size_t`.
abbrev pub chars_of : ℕ → ℕ
chars_of b_length = if ltb b_length 2 then 2 ^ 32 - 1 else (b_length - 2) / 2

-- `result->next = current`, or `result = current` if there is none; `current` has no next.
abbrev pub link : List UsbString → Option UsbString → List UsbString
link result none = result
link [] (some current) = current ∷ []
link (first ∷ next) (some current) = first ∷ current ∷ []

module _ {W : Type 0} (api : Api W) (setup : SetupApi W) where
  abbrev pub string_request : ℕ → ℕ → ℕ → DescriptorRequest
  string_request connection_index descriptor_index language_id = record {
    connection_index = connection_index;
    value = string_descriptor_type * 2 ^ 8 + descriptor_index;
    index = language_id;
    length = string_buffer_size - request_size;
  }

  -- The copy of the string: as many bytes as the descriptor has, from its third on. The byte
  -- behind the buffer is what the stack holds.
  abbrev pub copy_string : ℕ → UsbString → M W (Option UsbString)
  copy_string b_length node = do
    got ← alloc api b_length
    if got then pure (some node) else (free >> pure none)

  abbrev pub keep_string : ℕ → List ℕ → M W (Option UsbString)
  keep_string language_id buffer = do
    behind ← peek api.stack_byte
    got ← alloc api 16
    let b_length = get_or buffer request_size 0
    if got
        then copy_string b_length (record {
          lang = language_id;
          length_chars = chars_of b_length;
          string = wide_chars (take b_length (drop (request_size + 2) (buffer ++ behind ∷ [])));
        })
        else pure none

  abbrev pub checked_string : ℕ → Option (List ℕ) → M W (Option UsbString)
  checked_string language_id none = pure none
  checked_string language_id (some reply) =
      let buffer = overlay reply (replicate string_buffer_size 0) in
      if is_refused buffer (length reply) then pure none else keep_string language_id buffer

  -- `GetStringDescriptor`
  unfoldable pub get_string_descriptor : ℕ → ℕ → ℕ → ℕ → M W (Option UsbString)
  get_string_descriptor hub connection_index descriptor_index language_id = do
    r ← call (
        setup.get_descriptor hub (string_request connection_index descriptor_index language_id)
          string_buffer_size)
    checked_string language_id r

  -- The loop of `GetStringDescriptors`, with the result so far.
  unfoldable pub link_strings : ℕ → ℕ → ℕ → List ℕ → List UsbString → M W (List UsbString)
  link_strings hub connection_index descriptor_index [] result s = (result, s)
  link_strings hub connection_index descriptor_index (language ∷ languages) result s =
      let (current, s') = get_string_descriptor hub connection_index descriptor_index language s in
      link_strings hub connection_index descriptor_index languages (link result current) s'

  -- `GetStringDescriptors`
  unfoldable pub get_string_descriptors : ℕ → ℕ → ℕ → List ℕ → M W (List UsbString)
  get_string_descriptors hub connection_index descriptor_index languages =
      link_strings hub connection_index descriptor_index languages []

-- `FreeUsbString`: the string and the node, one node after the other.
unfoldable pub free_usb_string : {W : Type 0} → List UsbString → M W (Unit {0})
free_usb_string [] s = (tt, s)
free_usb_string (str ∷ next) s = let (_, s') = (free >> free) s in free_usb_string next s'
