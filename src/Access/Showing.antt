-- ===== src/Access/Showing.antt =====
-- What LptToUsbAdapter/LptPortAccessDemo/LptPortAccessDemo.c shows of the lines of the port.
use mathlib.Core.Path.{subst}
use lpt_to_usb_adapter.Base.{
  ℕ, zero, suc, ◌+◌, ◌<◌, ◌≡◌, refl, sym, ap, ◌∙◌, Bool, true, false, List, [], ◌∷◌, ◌++◌, map,
  get_or, append_assoc, append-nil, ◌==◌, if◌then◌else◌, bit, byte_of, byte_of-bit,
}
use lpt_to_usb_adapter.Lpt.Pins.{Board, Io, Mcu, legacy, pcon}
use lpt_to_usb_adapter.Lpt.Driver.{set_reg, get_reg, data_is_output, mode_eq}
use lpt_to_usb_adapter.Lpt.Lines.{sampled, sampled-lt, data_get_lem}
use lpt_to_usb_adapter.Lpt.Invariant.{Directed}
use lpt_to_usb_adapter.Lpt.Registers.{get_reg-set_reg_pcon, set_reg_pcon-active_mode}
use lpt_to_usb_adapter.Access.Texts.{pcon_title, data_title}
use lpt_to_usb_adapter.Access.Demo.{
  lpt_base, data_line, repeat, show_port, begin_monitor_data, monitor_data,
}
use lpt_to_usb_adapter.Access.Driving.{Desk, console}

-- The byte that a reader takes from a printed line: the columns below `D7` to `D0`.
abbrev pub column : List ℕ → ℕ → Bool
column text k = get_or text k 0 == b'1'

abbrev pub byte_shown : List ℕ → ℕ
byte_shown text =
    byte_of (column text 22) (column text 19) (column text 16) (column text 13) (column text 10)
      (column text 7) (column text 4) (column text 1)

-- The bytes on the data lines at the volatile reads of some rounds.
unfoldable pub samples : Board → Io → ℕ → ℕ → List ℕ
samples board io k zero = []
samples board io k (suc n) = sampled board io k ∷ samples board io (k + 8) n

char-bit : (b : Bool) → ((if b then 49 else 48) == 49) ≡ b
char-bit true = refl
char-bit false = refl

byte_shown-data_line : (byte : ℕ) → byte < 256 → byte_shown (13 ∷ data_line byte) ≡ byte
byte_shown-data_line byte h =
    rw
      (
        char-bit (bit byte 0),
        char-bit (bit byte 1),
        char-bit (bit byte 2),
        char-bit (bit byte 3),
        char-bit (bit byte 4),
        char-bit (bit byte 5),
        char-bit (bit byte 6),
        char-bit (bit byte 7),
      )
      (byte_of-bit byte h)

module _ (board : Board) (strtoul : List ℕ → ℕ) where
  abbrev showing : Desk → Desk
  showing = show_port (console board strtoul) lpt_base data_line

  -- Some rounds printed the bytes of the data lines, and left the lines alone.
  record Shown (n : ℕ) (m : Mcu) (printed : List (List ℕ)) (d : Desk) : Type 0 where
    texts : List (List ℕ)
    all_printed : d.printed ≡ printed ++ texts
    bytes_shown : map byte_shown texts ≡ samples board m.io m.reads n
    lines_kept : d.mcu.io ≡ m.io

  showing-input :
      (d : Desk)
      → data_is_output d.mcu ≡ false
      → showing d ≡ record d {
        mcu = record (d.mcu) { reads = d.mcu.reads + 8 };
        printed = d.printed ++ (13 ∷ data_line (sampled board d.mcu.io d.mcu.reads)) ∷ [];
      }
  unfolding get_reg
  showing-input d input = rw (showing, show_port, input, data_get_lem board d.mcu) refl

  rounds-Shown :
      (n : ℕ) (d : Desk)
      → data_is_output d.mcu ≡ false
      → Shown n d.mcu d.printed (repeat n showing d)
  unfolding repeat samples
  rounds-Shown zero d input = record {
    texts = [];
    all_printed = sym (append-nil d.printed);
    bytes_shown = refl;
    lines_kept = refl;
  }
  rounds-Shown (suc n) d input =
      let byte = sampled board d.mcu.io d.mcu.reads in
      let text = 13 ∷ data_line byte in
      let d' : Desk = record d {
        mcu = record (d.mcu) { reads = d.mcu.reads + 8 };
        printed = d.printed ++ text ∷ [];
      } in
      let rest = rounds-Shown n d' input in
      let first = byte_shown-data_line byte (sampled-lt board d.mcu.io d.mcu.reads) in
      subst (Shown (suc n) d.mcu d.printed) (sym (ap (repeat n showing) (showing-input d input)))
        (record {
          texts = text ∷ rest.texts;
          all_printed = rest.all_printed ∙ append_assoc d.printed (text ∷ []) rest.texts;
          bytes_shown = rw (first, rest.bytes_shown) refl;
          lines_kept = rest.lines_kept;
        })

  -- In the modes that have a direction bit, `MonitorData` makes the data lines inputs and says so;
  -- then each round prints one line whose columns are the bits found on the data lines by its eight
  -- reads, and no round changes what the driver drives.
  pub monitor_data-shown :
      (n : ℕ) (d : Desk)
      → mode_eq d.mcu.active_mode legacy ≡ false
      → let m = (set_reg board pcon 0x20 d.mcu).1 in
        let d' = monitor_data (console board strtoul) n d in
        Directed false m.io
        × (d'.mcu.io ≡ m.io)
        × ((texts : List (List ℕ)) × (d'.printed
              ≡ d.printed ++ (pcon_title ++ b'2' ∷ b'0' ∷ 10 ∷ []) ∷ data_title ∷ texts)
            × (map byte_shown texts ≡ samples board m.io m.reads n))
  unfolding monitor_data get_reg
  monitor_data-shown n d new =
      let m = (set_reg board pcon 0x20 d.mcu).1 in
      let control = get_reg-set_reg_pcon board 0x20 d.mcu in
      let e : m.last_pcon ≡ 0x20 = control.0 ∙ rw new refl in
      let input : data_is_output m ≡ false =
        rw (set_reg_pcon-active_mode board 0x20 d.mcu, new, e) refl in
      let d' = begin_monitor_data (console board strtoul) d in
      let s = rounds-Shown n d' input in
      let p = pcon_title ++ b'2' ∷ b'0' ∷ 10 ∷ [] in
      let header : d'.printed ≡ (d.printed ++ p ∷ []) ++ data_title ∷ [] =
        rw (begin_monitor_data, e) refl in
      (
        control.5 new,
        s.lines_kept,
        (
          s.texts,
          s.all_printed
              ∙ ap (λ (t : List (List ℕ)). t ++ s.texts) header
              ∙ append_assoc (d.printed ++ p ∷ []) (data_title ∷ []) s.texts
              ∙ append_assoc d.printed (p ∷ []) (data_title ∷ s.texts),
          s.bytes_shown,
        ),
      )
