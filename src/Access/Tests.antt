-- ===== src/Access/Tests.antt =====
-- Concrete runs of LptToUsbAdapter/LptPortAccessDemo/LptPortAccessDemo.c.
use lpt_to_usb_adapter.Base.{
  inl, ℕ, ◌≡◌, refl, true, false, List, [], ◌∷◌, ◌++◌, map, ◌==◌, if◌then◌else◌,
}
use lpt_to_usb_adapter.Lpt.Pins.{Mcu, epp, pcon, data_latches}
use lpt_to_usb_adapter.Lpt.Driver.{set_reg, data_is_output}
use lpt_to_usb_adapter.Lpt.Invariant.{Directed}
use lpt_to_usb_adapter.Lpt.Tests.{cleared, responder}
use lpt_to_usb_adapter.Access.Texts.{pcon_title, data_title}
use lpt_to_usb_adapter.Access.Demo.{write_data, monitor_data}
use lpt_to_usb_adapter.Access.Driving.{Desk, console, last_byte, answers, write_data-driven}
use lpt_to_usb_adapter.Access.Showing.{byte_shown, samples, monitor_data-shown}

-- The lines `a` and `b`, of which the second is too large.
abbrev value_of : List ℕ → ℕ
value_of [] = 0
value_of (c ∷ cs) = if c == b'a' then 165 else 300

abbrev in_epp : Mcu
in_epp = record cleared { active_mode = epp }

abbrev desk : Desk
desk = record { mcu = in_epp; inputs = (b'a' ∷ []) ∷ (b'b' ∷ []) ∷ []; printed = [] }

write_data-driven_example :
    let d = write_data (console responder value_of) 2 [] desk in
    (data_is_output d.mcu ≡ true)
    × Directed true d.mcu.io
    × (data_latches d.mcu.io ≡ last_byte value_of ((b'a' ∷ []) ∷ (b'b' ∷ []) ∷ []) 0)
    × (d.printed ≡ answers value_of ((b'a' ∷ []) ∷ (b'b' ∷ []) ∷ []))
write_data-driven_example = write_data-driven responder value_of desk [] (inl refl)

monitor_data-shown_example :
    let m = (set_reg responder pcon 0x20 in_epp).1 in
    let d = monitor_data (console responder value_of) 3 desk in
    Directed false m.io
    × (d.mcu.io ≡ m.io)
    × ((texts : List (List ℕ)) × (d.printed
          ≡ (pcon_title ++ b'2' ∷ b'0' ∷ 10 ∷ []) ∷ data_title ∷ texts)
        × (map byte_shown texts ≡ samples responder m.io m.reads 3))
monitor_data-shown_example = monitor_data-shown responder value_of 3 desk refl
