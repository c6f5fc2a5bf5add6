-- ===== src/Injector/Startup.antt =====
-- `wWinMain` of LptToUsbAdapter/LptPatchInjector/LptPatchInjector.c around its loop, behind
-- `LoadSettings`.
use lpt_to_usb_adapter.Base.{
  ℕ, ◌+◌, Bool, true, false, ◌&&◌, ◌||◌, Option, none, some, List, [], ◌∷◌, map, length, ltb, leb,
  if◌then◌else◌,
}
use lpt_to_usb_adapter.Usb.Api.{Api, M, pure, ◌>>=◌, ◌>>◌, call}
use lpt_to_usb_adapter.Usb.Device.{close_handle}
use lpt_to_usb_adapter.UsbLpt.Commands.{UsbLpt, set_mode, close}
use lpt_to_usb_adapter.Injectee.Filters.{same_string}
use lpt_to_usb_adapter.Injectee.Ports.{Outcome, died, returned}
use lpt_to_usb_adapter.Injector.Debuggee.{Debuggee, Settings, Workers}
use lpt_to_usb_adapter.Injector.Modules.{ModuleApi}
use lpt_to_usb_adapter.Injector.Loop.{Debugger, debug_loop}

-- The settings that are used, with the path of the program as wide characters.
pub record StartSettings : Type 0 where
  pub settings : Settings
  pub mode : List ℕ
  pub application_path : List ℕ

-- The calls; a program that is started has a handle for its process and for its thread.
pub record StartApi (W : Type 0) : Type 0 where
  pub message_box : W → W
  pub path_file_exists : List ℕ → W → Bool × W
  pub create_process_with_dll : List ℕ → List ℕ → W → Option (ℕ × ℕ) × W

-- `_stricmp`
abbrev pub lower : ℕ → ℕ
lower c = if leb 65 c && leb c 90 then c + 32 else c

abbrev pub same_caseless : List ℕ → List ℕ → Bool
same_caseless a b = same_string (map lower a) (map lower b)

-- The chain of tests of `Settings.lpt.mode`.
unfoldable pub mode_of_setting : List ℕ → Option ℕ
mode_of_setting mode =
    if same_caseless mode (b'E' ∷ b'P' ∷ b'P' ∷ [])
    then some 2
    else if same_caseless mode (b'L' ∷ b'E' ∷ b'G' ∷ b'A' ∷ b'C' ∷ b'Y' ∷ [])
    then some 0
    else if same_caseless mode (b'P' ∷ b'S' ∷ b'/' ∷ b'2' ∷ [])
        || same_caseless mode (b'P' ∷ b'S' ∷ b'2' ∷ [])
    then some 1
    else none

abbrev max_path : ℕ
max_path = 260

module _ {W : Type 0} (api : Api W) (start : StartApi W) (modules : ModuleApi W)
    (debugger : Debugger W) (debuggee : ℕ → ℕ → Debuggee W) (length_disasm : List ℕ → ℕ → ℕ)
    (open_auto : M W (Option (Option UsbLpt))) (patch_dll_name : List ℕ) (workers : Workers) where
  abbrev message : M W (Unit {0})
  message s = (tt, record s { world = start.message_box s.world })

  abbrev mode_set : UsbLpt → Bool → Option (Outcome UsbLpt)
  mode_set lpt false = some died
  mode_set lpt true = some (returned lpt)

  abbrev set_to : UsbLpt → Option ℕ → M W (Option (Outcome UsbLpt))
  set_to lpt none = pure (some died)
  set_to lpt (some mode) = do done ← set_mode api lpt mode; pure (mode_set lpt done)

  abbrev pub use_opened : List ℕ → Option (Option UsbLpt) → M W (Option (Outcome UsbLpt))
  use_opened mode none = pure none
  use_opened mode (some none) = pure (some died)
  use_opened mode (some (some lpt)) = set_to lpt (mode_of_setting mode)

  -- The adapter, set to its mode; in the patching mode the static `UsbLpt`, which is not set.
  unfoldable pub prepare : StartSettings → UsbLpt → M W (Option (Outcome UsbLpt))
  prepare settings unset =
      if settings.settings.use_mempatch
      then message >> pure (some (returned unset))
      else (open_auto >>= use_opened settings.mode)

  -- `GetTargetExePath`
  abbrev get_target_exe_path : List ℕ → M W Bool
  get_target_exe_path path =
      if ltb (length path) max_path then call (start.path_file_exists path) else pure false

  -- `GetPatchDllPath`
  abbrev get_patch_dll_path : M W Bool
  get_patch_dll_path =
      if ltb (length patch_dll_name) max_path
      then call (start.path_file_exists patch_dll_name)
      else pure false

  -- Behind the loop.
  abbrev close_all :
      StartSettings → UsbLpt → ℕ → Option (Outcome (Unit {0})) → M W (Option (Outcome (Unit {0})))
  close_all settings lpt process none = pure none
  close_all settings lpt process (some died) = pure (some died)
  close_all settings lpt process (some (returned _)) = do
    close_handle api process
    closed ← (if settings.settings.use_mempatch then pure true else close api lpt)
    pure (some (returned tt))

  abbrev run : ℕ → StartSettings → UsbLpt → Option (ℕ × ℕ) → M W (Option (Outcome (Unit {0})))
  run fuel settings lpt none = pure (some died)
  run fuel settings lpt (some (process, thread)) = do
    close_handle api thread
    done ←
        debug_loop api modules debugger (debuggee process) length_disasm fuel patch_dll_name
          settings.settings lpt workers
    close_all settings lpt process done

  abbrev pub start_program : ℕ → StartSettings → UsbLpt → M W (Option (Outcome (Unit {0})))
  start_program fuel settings lpt = do
    target ← get_target_exe_path settings.application_path
    if target
        then (do
          patch ← get_patch_dll_path
          if patch
              then (do
                started ←
                    call (start.create_process_with_dll settings.application_path patch_dll_name)
                run fuel settings lpt started)
              else pure (some died))
        else pure (some died)

  abbrev prepared : ℕ → StartSettings → Option (Outcome UsbLpt) → M W (Option (Outcome (Unit {0})))
  prepared fuel settings none = pure none
  prepared fuel settings (some died) = pure (some died)
  prepared fuel settings (some (returned lpt)) = start_program fuel settings lpt

  -- `wWinMain`; `none` if the fuel of the loop or of an update runs out.
  unfoldable pub w_win_main : ℕ → StartSettings → UsbLpt → M W (Option (Outcome (Unit {0})))
  w_win_main fuel settings unset = prepare settings unset >>= prepared fuel settings
