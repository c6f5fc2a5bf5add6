-- ===== src/Injector/Loop.antt =====
-- The loop of `wWinMain` of LptToUsbAdapter/LptPatchInjector/LptPatchInjector.c over the debug
-- events.
use lpt_to_usb_adapter.Base.{
  ℕ, zero, suc, ◌+◌, Bool, true, false, ◌&&◌, ◌||◌, Option, none, some, List, [], ◌∷◌, get_or, ◌==◌,
  if◌then◌else◌,
}
use lpt_to_usb_adapter.Usb.Api.{Api, M, pure, ◌>>=◌, ◌>>◌}
use lpt_to_usb_adapter.Usb.Device.{close_handle}
use lpt_to_usb_adapter.UsbLpt.Commands.{UsbLpt}
use lpt_to_usb_adapter.Injectee.Ports.{Outcome, died, returned}
use lpt_to_usb_adapter.Injector.Debuggee.{Debuggee, Settings, Workers}
use lpt_to_usb_adapter.Injector.Exception.{process_io_exception}
use lpt_to_usb_adapter.Injector.Modules.{ModuleApi, find_external_process_dll_fn_addresses}

-- `de.dwDebugEventCode` with the fields of `de.u` that are used.
pub data EventInfo : Type 0 where
  create_process : ℕ → EventInfo
  load_dll : ℕ → EventInfo
  exception : ℕ → ℕ → EventInfo
  exit_process : EventInfo
  other_event : EventInfo

-- `DEBUG_EVENT`
pub record DebugEvent : Type 0 where
  pub process_id : ℕ
  pub thread_id : ℕ
  pub info : EventInfo

pub data ContinueType : Type 0 where
  dbg_continue : ContinueType
  dbg_exception_not_handled : ContinueType

-- `EXCEPTION_PRIV_INSTRUCTION`
abbrev pub exception_priv_instruction : ℕ
exception_priv_instruction = 0xc0000096

-- The calls on the program that is debugged.
pub record Debugger (W : Type 0) : Type 0 where
  pub wait_for_debug_event : W → Option DebugEvent × W
  pub continue_debug_event : ℕ → ℕ → ContinueType → W → W
  pub open_thread : ℕ → W → W

-- "ReadPort8" and "WritePort8"
abbrev pub functions : List (List ℕ)
functions =
    (b'R' ∷ b'e' ∷ b'a' ∷ b'd' ∷ b'P' ∷ b'o' ∷ b'r' ∷ b't' ∷ b'8' ∷ [])
    ∷ (b'W' ∷ b'r' ∷ b'i' ∷ b't' ∷ b'e' ∷ b'P' ∷ b'o' ∷ b'r' ∷ b't' ∷ b'8' ∷ [])
    ∷ []

-- `process_alive` behind an event.
abbrev pub goes_on : EventInfo → Bool
goes_on exit_process = false
goes_on _ = true

module _ {W : Type 0} (api : Api W) (modules : ModuleApi W) (debugger : Debugger W)
    (debuggee : ℕ → Debuggee W) (length_disasm : List ℕ → ℕ → ℕ) where
  -- The handle of the thread, which the system is taken to give, is not closed.
  abbrev open_thread : ℕ → M W (Unit {0})
  open_thread thread s =
      (tt, record s { world = debugger.open_thread thread s.world; opened = s.opened + 1 })

  abbrev pub serve_exception :
      Settings → UsbLpt → ℕ → ℕ → Workers → M W (Outcome (ContinueType × Workers))
  serve_exception settings lpt thread address workers = do
    open_thread thread
    handled ← process_io_exception api (debuggee thread) workers length_disasm settings lpt address
    pure (returned (if handled then dbg_continue else dbg_exception_not_handled, workers))

  abbrev loaded :
      Settings → UsbLpt → ℕ → ℕ → Workers → Option (List ℕ) → M W (Outcome (ContinueType × Workers))
  loaded settings lpt thread address workers none = pure died
  loaded settings lpt thread address workers (some addresses) =
      serve_exception settings lpt thread address
        (record workers { read_port8 = get_or addresses 0 0; write_port8 = get_or addresses 1 0 })

  -- A privileged instruction; the addresses of the patch's functions are looked up once.
  abbrev pub on_priv_instruction :
      List ℕ → Settings → UsbLpt → ℕ → ℕ → Workers → M W (Outcome (ContinueType × Workers))
  on_priv_instruction dll_path settings lpt thread address workers =
      if settings.use_mempatch && ((workers.write_port8 == 0) || (workers.read_port8 == 0))
      then (find_external_process_dll_fn_addresses api modules dll_path functions
          >>= loaded settings lpt thread address workers)
      else serve_exception settings lpt thread address workers

  -- The `switch` over the event.
  abbrev pub on_event :
      List ℕ → Settings → UsbLpt → ℕ → EventInfo → Workers → M W (Outcome (ContinueType × Workers))
  on_event dll_path settings lpt thread (create_process file) workers = do
    close_handle api file
    pure (returned (dbg_continue, workers))
  on_event dll_path settings lpt thread (load_dll file) workers = do
    close_handle api file
    pure (returned (dbg_continue, workers))
  on_event dll_path settings lpt thread (exception code address) workers =
      if code == exception_priv_instruction
      then on_priv_instruction dll_path settings lpt thread address workers
      else pure (returned (dbg_exception_not_handled, workers))
  on_event dll_path settings lpt thread exit_process workers =
      pure (returned (dbg_continue, workers))
  on_event dll_path settings lpt thread other_event workers =
      pure (returned (dbg_exception_not_handled, workers))

  abbrev resume_event : DebugEvent → ContinueType → M W (Unit {0})
  resume_event de type s = (
    tt,
    record s { world = debugger.continue_debug_event de.process_id de.thread_id type s.world },
  )

  -- One round behind a wait that gave an event: the workers, unless the program ends itself.
  abbrev pub answer : DebugEvent → Outcome (ContinueType × Workers) → M W (Outcome Workers)
  answer de died = pure died
  answer de (returned (type, workers)) = do resume_event de type; pure (returned workers)

  abbrev pub on_debug_event :
      List ℕ → Settings → UsbLpt → Workers → DebugEvent → M W (Outcome Workers)
  on_debug_event dll_path settings lpt workers de =
      on_event dll_path settings lpt de.thread_id de.info workers >>= answer de

  -- The loop; `none` if the fuel runs out.
  unfoldable pub debug_loop :
      ℕ → List ℕ → Settings → UsbLpt → Workers → M W (Option (Outcome (Unit {0})))
  debug_loop zero dll_path settings lpt workers s = (none, s)
  debug_loop (suc fuel) dll_path settings lpt workers s =
      let (de, w) = debugger.wait_for_debug_event s.world in
      let s₁ = record s { world = w } in
      elim de [
        | none ↦ (some (returned tt), s₁)
        | some e ↦
            let (r, s₂) = on_debug_event dll_path settings lpt workers e s₁ in
            elim r [
              | died ↦ (some died, s₂)
              | returned workers' ↦
                  let rest = debug_loop fuel dll_path settings lpt workers' s₂ in
                  if goes_on e.info then rest else (some (returned tt), s₂)
            ]
      ]
