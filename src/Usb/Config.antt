-- ===== src/Usb/Config.antt =====
-- `GetConfigDescriptor` of LptToUsbAdapter/UsbLptLib/UsbWrappers.c.
use lpt_to_usb_adapter.Base.{
  ℕ, ◌+◌, ◌-◌, ◌*◌, ◌^◌, not, Option, none, some, List, length, ltb, ◌==◌, if◌then◌else◌, u16,
}
use lpt_to_usb_adapter.Usb.Api.{Api, M, pure, ◌>>=◌, ◌>>◌, call, free, alloc}
use lpt_to_usb_adapter.Usb.Setup.{SetupApi, DescriptorRequest, request_size, word_at}

-- `sizeof(USB_CONFIGURATION_DESCRIPTOR)`
abbrev pub config_size : ℕ
config_size = 9

abbrev config_descriptor_type : ℕ
config_descriptor_type = 2

-- `configDesc->wTotalLength`
abbrev pub total_length : List ℕ → ℕ
total_length buffer = word_at buffer (request_size + 2)

module _ {W : Type 0} (api : Api W) (setup : SetupApi W) where
  abbrev config_request : ℕ → ℕ → ℕ → DescriptorRequest
  config_request connection_index descriptor_index n_bytes = record {
    connection_index = connection_index;
    value = config_descriptor_type * 2 ^ 8 + descriptor_index;
    index = 0;
    length = u16 (n_bytes - request_size);
  }

  -- The second request: the whole descriptor in a block, which is given back unless it is whole.
  abbrev check_whole : ℕ → Option (List ℕ) → M W (Option (List ℕ))
  check_whole n_bytes none = free >> pure none
  check_whole n_bytes (some buffer) =
      if not (n_bytes == length buffer)
      then free >> pure none
      else if not (total_length buffer == n_bytes - request_size)
      then free >> pure none
      else pure (some buffer)

  abbrev request_whole : ℕ → ℕ → ℕ → ℕ → M W (Option (List ℕ))
  request_whole hub connection_index descriptor_index n_bytes = do
    got ← alloc api n_bytes
    if got
        then (call (
              setup.get_descriptor hub (config_request connection_index descriptor_index n_bytes)
                n_bytes)
            >>= check_whole n_bytes)
        else pure none

  -- What the first request, of the descriptor's own size, brought.
  abbrev first_checked : ℕ → ℕ → ℕ → Option (List ℕ) → M W (Option (List ℕ))
  first_checked hub connection_index descriptor_index none = pure none
  first_checked hub connection_index descriptor_index (some buffer) =
      if not (request_size + config_size == length buffer)
      then pure none
      else if ltb (total_length buffer) config_size
      then pure none
      else request_whole hub connection_index descriptor_index (request_size + total_length buffer)

  -- `GetConfigDescriptor`: the buffer of the request, in a block that is held on.
  unfoldable pub get_config_descriptor : ℕ → ℕ → ℕ → M W (Option (List ℕ))
  get_config_descriptor hub connection_index descriptor_index = do
    r ← call (
        setup.get_descriptor hub
          (config_request connection_index descriptor_index (request_size + config_size))
          (request_size + config_size))
    first_checked hub connection_index descriptor_index r
