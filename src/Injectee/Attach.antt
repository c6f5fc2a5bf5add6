-- ===== src/Injectee/Attach.antt =====
-- `Init` and `DllMain` of LptToUsbAdapter/LptPatchInjectee/LptPatchInjectee.c.
use lpt_to_usb_adapter.Base.{ℕ, Bool, true, false, Option, none, some, List, [], ◌∷◌, if◌then◌else◌}
use lpt_to_usb_adapter.Usb.Api.{Api, M, pure, ◌>>=◌, ◌>>◌}
use lpt_to_usb_adapter.UsbLpt.Commands.{UsbLpt, set_mode}
use lpt_to_usb_adapter.Injectee.Ports.{Outcome, died, returned}

-- The functions of the system that are redirected.
pub data Hook : Type 0 where
  create_file_hook : Hook
  device_io_control_hook : Hook
  reg_open_key_hook : Hook
  reg_enum_value_hook : Hook
  reg_query_value_hook : Hook

-- `DetourFindFunction` with `DetourAttach`, `DetourDetach`, the transaction around them, and
-- `DetourRestoreAfterWith`.
pub record Detours (W : Type 0) : Type 0 where
  pub restore_after_with : W → W
  pub begin : W → W
  pub attach : Hook → W → W
  pub detach : Hook → W → W
  pub commit : W → W

-- The settings that the library reads.
pub record InjecteeSettings : Type 0 where
  pub use_mempatch : Bool
  pub patch_winio_load : Bool
  pub emulate_lpt_in_registry : Bool

-- `fdwReason`
pub data Reason : Type 0 where
  process_attach : Reason
  thread_attach : Reason
  thread_detach : Reason
  process_detach : Reason

-- `InitCompleted` and `UsbLpt`
pub record InjecteeStatics : Type 0 where
  pub init_completed : Bool
  pub usb_lpt : Option UsbLpt

abbrev pub lpt_mode_epp : ℕ
lpt_mode_epp = 2

abbrev winio_hooks : List Hook
winio_hooks = create_file_hook ∷ device_io_control_hook ∷ []

abbrev registry_hooks : List Hook
registry_hooks = reg_open_key_hook ∷ reg_enum_value_hook ∷ reg_query_value_hook ∷ []

abbrev each : {W : Type 0} → (Hook → W → W) → List Hook → W → W
each f [] w = w
each f (hook ∷ hooks) w = each f hooks (f hook w)

module _ {W : Type 0} (detours : Detours W) (settings : InjecteeSettings) where
  abbrev pub chosen : (Hook → W → W) → W → W
  chosen f w =
      let w' = if settings.patch_winio_load then each f winio_hooks w else w in
      if settings.emulate_lpt_in_registry then each f registry_hooks w' else w'

  -- The `switch` of `DllMain`; `FreeSettings` leaves no trace.
  unfoldable pub on_reason : Reason → W → W
  on_reason process_attach w =
      detours.commit (chosen detours.attach (detours.begin (detours.restore_after_with w)))
  on_reason thread_attach w = w
  on_reason thread_detach w = w
  on_reason process_detach w = detours.commit (chosen detours.detach (detours.begin w))

  module _ (api : Api W) (open_auto : M W (Option (Option UsbLpt))) where
    abbrev configured : InjecteeStatics → UsbLpt → Bool → Option (Outcome InjecteeStatics)
    configured statics lpt false = some died
    configured statics lpt true =
        some (returned (record { init_completed = true; usb_lpt = some lpt }))

    abbrev use_adapter :
        InjecteeStatics → Option (Option UsbLpt) → M W (Option (Outcome InjecteeStatics))
    use_adapter statics none = pure none
    use_adapter statics (some none) = pure (some died)
    use_adapter statics (some (some lpt)) = do
      done ← set_mode api lpt lpt_mode_epp
      pure (configured statics lpt done)

    -- `Init`, over `UsbLpt_OpenAuto`.
    unfoldable pub init : InjecteeStatics → M W (Option (Outcome InjecteeStatics))
    init statics =
        if statics.init_completed
        then pure (some (returned statics))
        else if settings.use_mempatch
        then (open_auto >>= use_adapter statics)
        else pure (some (returned (record statics { init_completed = true })))

    abbrev attend : Reason → M W (Unit {0})
    attend reason s = (tt, record s { world = on_reason reason s.world })

    abbrev switch :
        Reason → Option (Outcome InjecteeStatics) → M W (Option (Outcome InjecteeStatics))
    switch reason none = pure none
    switch reason (some died) = pure (some died)
    switch reason (some (returned statics)) = do attend reason; pure (some (returned statics))

    -- `DllMain`: the statics behind a return of TRUE.
    unfoldable pub dll_main :
        Bool → Reason → InjecteeStatics → M W (Option (Outcome InjecteeStatics))
    dll_main is_helper reason statics =
        if is_helper then pure (some (returned statics)) else (init statics >>= switch reason)
