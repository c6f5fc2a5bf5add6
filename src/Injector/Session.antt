-- ===== src/Injector/Session.antt =====
-- The debug events of a session and their answers, for the loop of
-- LptToUsbAdapter/LptPatchInjector/LptPatchInjector.c.
use lpt_to_usb_adapter.Base.{ℕ, ◌+◌, ◌≡◌, ◌⊎◌, none, some, List, [], ◌∷◌, ◌++◌, ◌==◌, if◌then◌else◌}
use lpt_to_usb_adapter.Usb.Api.{Api}
use lpt_to_usb_adapter.Injector.Debuggee.{Debuggee}
use lpt_to_usb_adapter.Injector.Loop.{
  EventInfo, DebugEvent, ContinueType, Debugger, create_process, load_dll, exception, exit_process,
  other_event, dbg_continue, dbg_exception_not_handled, exception_priv_instruction, goes_on,
}
use lpt_to_usb_adapter.Injector.Quiet.{AreQuiet}

-- An answer: whom it is for, and how to go on.
abbrev pub Answer : Type 0
Answer = ℕ × ℕ × ContinueType

-- The events that are still to come, and the answers so far.
pub record Session : Type 0 where
  pub events : List DebugEvent
  pub answers : List Answer

-- A system in which waiting takes the next event, answering adds the answer, and no other call
-- changes the session.
pub record IsDebugging {W : Type 0} (api : Api W) (debugger : Debugger W)
    (debuggee : ℕ → Debuggee W) (session : W → Session) : Type 0 where
  pub waits_end :
      (w : W)
      → (session w).events ≡ []
      → ((debugger.wait_for_debug_event w).0 ≡ none)
        × (session (debugger.wait_for_debug_event w).1 ≡ session w)
  pub waits :
      (w : W) (e : DebugEvent) (es : List DebugEvent)
      → (session w).events ≡ e ∷ es
      → ((debugger.wait_for_debug_event w).0 ≡ some e)
        × (session (debugger.wait_for_debug_event w).1 ≡ record (session w) { events = es })
  pub answers_kept :
      (process thread : ℕ) (type : ContinueType) (w : W)
      → session (debugger.continue_debug_event process thread type w)
        ≡ record (session w) { answers = (session w).answers ++ (process, thread, type) ∷ [] }
  pub thread_kept : (thread : ℕ) (w : W) → session (debugger.open_thread thread w) ≡ session w
  pub close_kept : (h : ℕ) (w : W) → session (api.close_handle h w) ≡ session w
  pub quiet : (thread : ℕ) → AreQuiet api (debuggee thread) session

-- How an event may be answered: a privileged instruction in both ways, as its serving says.
abbrev pub Fits : EventInfo → ContinueType → Type 0
Fits (create_process file) type = type ≡ dbg_continue
Fits (load_dll file) type = type ≡ dbg_continue
Fits (exception code address) type =
    (code ≡ exception_priv_instruction) ⊎ (type ≡ dbg_exception_not_handled)
Fits exit_process type = type ≡ dbg_continue
Fits other_event type = type ≡ dbg_exception_not_handled

-- The events up to the exit of the process are answered one by one.
abbrev pub Answered : List DebugEvent → List Answer → Type 0
Answered [] answers = answers ≡ []
Answered (e ∷ es) answers =
    (type : ContinueType) × (rest : List Answer) × (answers
      ≡ (e.process_id, e.thread_id, type) ∷ rest)
    × Fits e.info type
    × (if goes_on e.info then Answered es rest else rest ≡ [])

abbrev pub opens : EventInfo → ℕ
opens (exception code address) = if code == exception_priv_instruction then 1 else 0
opens _ = 0

abbrev pub closes : EventInfo → ℕ
closes (create_process file) = 1
closes (load_dll file) = 1
closes _ = 0

-- How many of the events up to the exit make the loop take a handle, or give one back.
abbrev pub taken : List DebugEvent → ℕ
taken [] = 0
taken (e ∷ es) = let rest = taken es in opens e.info + (if goes_on e.info then rest else 0)

abbrev pub given_back : List DebugEvent → ℕ
given_back [] = 0
given_back (e ∷ es) =
    let rest = given_back es in closes e.info + (if goes_on e.info then rest else 0)
