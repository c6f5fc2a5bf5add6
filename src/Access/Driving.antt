-- ===== src/Access/Driving.antt =====
-- What LptToUsbAdapter/LptPortAccessDemo/LptPortAccessDemo.c does to the adapter: its ports are the
-- registers of Firmware/AVRUSBLPT/lpt.c, as the injector serves them.
use mathlib.Core.Path.{subst}
use lpt_to_usb_adapter.Base.{
  ◌⊎◌, ℕ, ◌-◌, ◌<◌, ◌≡◌, refl, sym, ap, ◌∙◌, true, false, Option, none, some, List, [], ◌∷◌, ◌++◌,
  length, append_assoc, append-nil, ltb, if◌then◌else◌, Bool-cases, inl, inr, u8, arith,
}
use lpt_to_usb_adapter.Lpt.Invariant.{Directed}
use lpt_to_usb_adapter.Lpt.Pins.{legacy, data_set, Board, Mcu, pdata, pcon, data_latches}
use lpt_to_usb_adapter.Lpt.Driver.{set_reg, set_pcon, get_reg, data_is_output, mode_eq}
use lpt_to_usb_adapter.Lpt.Registers.{get_reg-set_reg_pdata, get_reg-set_reg_pcon}
use lpt_to_usb_adapter.Device.{reg_of}
use lpt_to_usb_adapter.Access.Texts.{data_prompt, invalid_input}
use lpt_to_usb_adapter.Access.Demo.{Console, lpt_base, repeat, write_port, write_data}

-- The adapter, the lines that are still to be read and the texts that were printed.
pub record Desk : Type 0 where
  pub mcu : Mcu
  pub inputs : List (List ℕ)
  pub printed : List (List ℕ)

abbrev pub next_line : Desk → Option (List ℕ) × Desk
next_line d = elim d.inputs [
  | [] ↦ (none, d)
  | line ∷ lines ↦ (some line, record d { inputs = lines })
]

abbrev pub console : Board → (List ℕ → ℕ) → Console Desk
console board strtoul = record {
  inb = λ port d.
      let (byte, m) = get_reg board (reg_of (port - lpt_base)) d.mcu in
      (byte, record d { mcu = m });
  outb = λ port byte d. record d { mcu = (set_reg board (reg_of (port - lpt_base)) byte d.mcu).1 };
  fgets = λ n. next_line;
  print = λ text d. record d { printed = d.printed ++ text ∷ [] };
  strtoul = strtoul;
}

-- The last of the values entered that are bytes, or what was there before.
unfoldable pub last_byte : (List ℕ → ℕ) → List (List ℕ) → ℕ → ℕ
last_byte strtoul [] before = before
last_byte strtoul (line ∷ lines) before =
    let value = strtoul line in last_byte strtoul lines (if ltb 255 value then before else value)

-- What is printed for the lines that are entered.
unfoldable pub answers : (List ℕ → ℕ) → List (List ℕ) → List (List ℕ)
answers strtoul [] = []
answers strtoul (line ∷ lines) =
    let rest = answers strtoul lines in
    data_prompt ∷ (if ltb 255 (strtoul line) then invalid_input ∷ rest else rest)

module _ (board : Board) (strtoul : List ℕ → ℕ) where
  -- The state of a loop of `WriteData`: the data lines are outputs, for the driver and in the
  -- direction registers, and their latches hold the byte.
  record Drives (value : ℕ) (m : Mcu) : Type 0 where
    output : data_is_output m ≡ true
    outputs : Directed true m.io
    latched : data_latches m.io ≡ value

  set_reg-Drives :
      (value : ℕ) (m : Mcu)
      → value < 256
      → data_is_output m ≡ true
      → Directed true m.io
      → Drives value (set_reg board pdata value m).1
  unfolding set_reg data_set
  set_reg-Drives value m byte out directed = record {
    output = rw out (out);
    outputs = rw out directed;
    latched = (get_reg-set_reg_pdata board value m byte out).1;
  }

  abbrev desk : Mcu → List (List ℕ) → List (List ℕ) → Desk
  desk m inputs printed = record { mcu = m; inputs = inputs; printed = printed }

  abbrev entering : List ℕ × Desk → List ℕ × Desk
  entering = write_port (console board strtoul) data_prompt 255 lpt_base

  record Entered (lines : List (List ℕ)) (value : ℕ) (printed : List (List ℕ)) (d : Desk)
      : Type 0 where
    drives : Drives (last_byte strtoul lines value) d.mcu
    answered : d.printed ≡ printed ++ answers strtoul lines

  entering-invalid :
      (line user_input : List ℕ) (lines printed : List (List ℕ)) (m : Mcu)
      → ltb 255 (strtoul line) ≡ true
      → entering (user_input, desk m (line ∷ lines) printed)
        ≡ (line, desk m lines ((printed ++ data_prompt ∷ []) ++ invalid_input ∷ []))
  entering-invalid line user_input lines printed m invalid = rw (entering, write_port, invalid) refl

  entering-valid :
      (line user_input : List ℕ) (lines printed : List (List ℕ)) (m : Mcu)
      → ltb 255 (strtoul line) ≡ false
      → u8 (strtoul line) ≡ strtoul line
      → entering (user_input, desk m (line ∷ lines) printed)
        ≡ (line, desk (set_reg board pdata (strtoul line) m).1 lines (printed ++ data_prompt ∷ []))
  entering-valid line user_input lines printed m valid kept =
      rw (entering, write_port, valid, kept) refl

  rounds-Entered :
      (lines : List (List ℕ)) (user_input : List ℕ) (value : ℕ) (m : Mcu) (printed : List (List ℕ))
      → Drives value m
      → Entered lines value printed
          (repeat (length lines) entering (user_input, desk m lines printed)).1
  unfolding repeat last_byte answers
  rounds-Entered [] user_input value m printed h = record {
    drives = h;
    answered = sym (append-nil printed);
  }
  rounds-Entered (line ∷ lines) user_input value m printed h =
      let p = printed ++ data_prompt ∷ [] in
      let later : List ℕ × Desk → Desk = λ s. (repeat (length lines) entering s).1 in
      elim (Bool-cases (ltb 255 (strtoul line))) [
        | inl invalid ↦
            let q = p ++ invalid_input ∷ [] in
            let rest = rounds-Entered lines line value m q h in
            subst (Entered (line ∷ lines) value printed)
              (sym (ap later (entering-invalid line user_input lines printed m invalid)))
              (record {
                drives = rw invalid rest.drives;
                answered =
                    rest.answered
                    ∙ append_assoc p (invalid_input ∷ []) (answers strtoul lines)
                    ∙ append_assoc printed (data_prompt ∷ [])
                        (invalid_input ∷ answers strtoul lines)
                    ∙ rw invalid refl;
              })
        | inr valid ↦
            let byte : strtoul line < 256 = ground (arith, valid) in
            let kept : u8 (strtoul line) ≡ strtoul line = omega (arith, byte) in
            let m' = (set_reg board pdata (strtoul line) m).1 in
            let driving = set_reg-Drives (strtoul line) m byte h.output h.outputs in
            let rest = rounds-Entered lines line (strtoul line) m' p driving in
            subst (Entered (line ∷ lines) value printed)
              (sym (ap later (entering-valid line user_input lines printed m valid kept)))
              (record {
                drives = rw valid rest.drives;
                answered =
                    rest.answered
                    ∙ append_assoc printed (data_prompt ∷ []) (answers strtoul lines)
                    ∙ rw valid refl;
              })
      ]

  -- The control register that is written first makes the data lines outputs, but in legacy mode.
  start_outputs :
      (m : Mcu)
      → (mode_eq m.active_mode legacy ≡ false) ⊎ Directed true m.io
      → Directed true (set_reg board pcon 0 m).1.io
  unfolding set_reg set_pcon
  start_outputs m (inl other) = (get_reg-set_reg_pcon board 0 m).5 other
  start_outputs m (inr already) = elim (Bool-cases (mode_eq m.active_mode legacy)) [
    | inl old ↦ rw old already
    | inr new ↦ rw new (refl, refl, refl, refl, refl, refl, refl, refl)
  ]

  -- In any mode but legacy, or in legacy mode if the data lines are outputs before, as they are not
  -- after a strobe read: after `WriteData` has read some lines the data lines are outputs in their
  -- direction registers, and so for the driver. They hold, and so drive, the last value entered
  -- that is at most 255, or what they held before if there is none; and each other value was
  -- answered by the message.
  pub write_data-driven :
      (d : Desk) (user_input : List ℕ)
      → (mode_eq d.mcu.active_mode legacy ≡ false) ⊎ Directed true d.mcu.io
      → let d' = write_data (console board strtoul) (length d.inputs) user_input d in
        (data_is_output d'.mcu ≡ true)
        × Directed true d'.mcu.io
        × (data_latches d'.mcu.io ≡ last_byte strtoul d.inputs (data_latches d.mcu.io))
        × (d'.printed ≡ d.printed ++ answers strtoul d.inputs)
  unfolding write_data get_reg
  write_data-driven d user_input ready =
      let m = (set_reg board pcon 0 d.mcu).1 in
      let control = get_reg-set_reg_pcon board 0 d.mcu in
      let zero_control : m.last_pcon ≡ 0 = ground (arith, control.0) in
      let start : Drives (data_latches d.mcu.io) m = record {
        output = ground (arith, zero_control);
        outputs = start_outputs d.mcu ready;
        latched = control.6;
      } in
      let e = rounds-Entered d.inputs user_input (data_latches d.mcu.io) m d.printed start in
      (e.drives.output, e.drives.outputs, e.drives.latched, e.answered)
