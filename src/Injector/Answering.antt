-- ===== src/Injector/Answering.antt =====
-- Every debug event is answered by the loop of LptToUsbAdapter/LptPatchInjector/LptPatchInjector.c.
use lpt_to_usb_adapter.Base.{ℕ, ◌+◌, ◌≡◌, false, Option, some, List, ◌++◌}
use lpt_to_usb_adapter.Usb.Api.{Api, Host}
use lpt_to_usb_adapter.UsbLpt.Commands.{UsbLpt}
use lpt_to_usb_adapter.Injectee.Ports.{Outcome, returned}
use lpt_to_usb_adapter.Injector.Debuggee.{Debuggee, Settings}
use lpt_to_usb_adapter.Injector.Modules.{ModuleApi}
use lpt_to_usb_adapter.Injector.Loop.{DebugEvent, Debugger}
use lpt_to_usb_adapter.Injector.Session.{Answer, Session, IsDebugging, Answered, taken, given_back}

module _ {W : Type 0} (api : Api W) (modules : ModuleApi W) (debugger : Debugger W)
    (debuggee : ℕ → Debuggee W) (length_disasm : List ℕ → ℕ → ℕ) (session : W → Session)
    (d : IsDebugging api debugger debuggee session) (dll_path : List ℕ) (settings : Settings)
    (lpt : UsbLpt) (off : settings.use_mempatch ≡ false) where
  -- What the loop leaves for the events that are to come.
  abbrev Ends : List DebugEvent → Host W → Option (Outcome (Unit {0})) × Host W → Type 0
  Ends events s (r, s') =
      (new : List Answer) × (r ≡ some (returned tt))
      × ((session s'.world).answers ≡ (session s.world).answers ++ new)
      × Answered events new
      × (s'.opened ≡ s.opened + taken events)
      × (s'.closed ≡ s.closed + given_back events)
