-- ===== src/Injectee/Ports.antt =====
-- `WritePort8` and `ReadPort8` of LptToUsbAdapter/LptPatchInjectee/LptPatchInjectee.c, behind
-- `Init`.
use lpt_to_usb_adapter.Base.{ℕ, ◌+◌, ◌-◌, ◌^◌, none, some, List, ltb, if◌then◌else◌, u16}
use lpt_to_usb_adapter.Usb.Api.{Api, M, pure, ◌>>=◌}
use lpt_to_usb_adapter.UsbLpt.Commands.{UsbLpt, set_port8, get_port8}
use lpt_to_usb_adapter.Injector.Exception.{bypassed}

-- How a call ends: `Die` does not return.
pub data Outcome (A : Type 0) : Type 0 where
  died : Outcome A
  returned : A → Outcome A

-- `port -= 0x378`, in 16 bits.
abbrev pub register : ℕ → ℕ
register port = u16 (port + 2 ^ 16 - 0x378)

module _ {W : Type 0} (api : Api W) where
  abbrev write_register : UsbLpt → ℕ → ℕ → M W (Outcome (Unit {0}))
  write_register lpt reg byte = do
    done ← set_port8 api lpt reg byte
    pure (if done then returned tt else died)

  -- `WritePort8`
  unfoldable pub write_port8 : List ℕ → UsbLpt → ℕ → ℕ → M W (Outcome (Unit {0}))
  write_port8 bypass_ports lpt port byte =
      if bypassed bypass_ports port
      then pure (returned tt)
      else if ltb 4 (register port)
      then pure died
      else write_register lpt (register port) byte

  abbrev read_register : UsbLpt → ℕ → M W (Outcome ℕ)
  read_register lpt reg = do
    r ← get_port8 api lpt reg
    pure (elim r [ none ↦ died | some byte ↦ returned byte ])

  -- `ReadPort8`
  unfoldable pub read_port8 : List ℕ → UsbLpt → ℕ → M W (Outcome ℕ)
  read_port8 bypass_ports lpt port =
      if bypassed bypass_ports port
      then pure (returned 0)
      else if ltb 4 (register port)
      then pure died
      else read_register lpt (register port)
