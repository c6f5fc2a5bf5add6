-- ===== src/Lpt/Registers.antt =====
-- The register interface of Firmware/AVRUSBLPT/lpt.c: what a read returns after a write.
use lpt_to_usb_adapter.Base.{
  ℕ, ◌+◌, ◌*◌, ◌%◌, ◌^◌, ◌<◌, ◌≡◌, refl, Bool, true, false, not, arith, bit, weight, weight-le,
  ◌==◌, sym, ap, ◌∙◌, if◌then◌else◌, Bool-cases, inl, inr,
}
use lpt_to_usb_adapter.Lpt.Pins.{
  Board, Mcu, legacy, epp, Reg, pdata, pstat, pcon, addstr, datastr, data_latches, data_set,
}
use lpt_to_usb_adapter.Lpt.Epp.{epp_write}
use lpt_to_usb_adapter.Lpt.Driver.{set_reg, get_reg, data_is_output, mode_eq}
use lpt_to_usb_adapter.Lpt.Lines.{
  data_get_lem, sampled-lt, SameControl, data_lines, lines_showing, data_set_lem,
}
use lpt_to_usb_adapter.Lpt.Handshake.{deciding, read_lines, epp_write_lem, epp_read_lem}
use lpt_to_usb_adapter.Lpt.Invariant.{IsValid, Directed}

weight-even : (b : Bool) (w : ℕ) → weight b (2 * w) % 2 ≡ 0
weight-even b w = ground arith

-- `AVRLPT_REG_ADDSTR` or `AVRLPT_REG_DATASTR`
abbrev pub strobe_reg : Bool → Reg
strobe_reg true = addstr
strobe_reg false = datastr

bit-mod : (n : ℕ) → bit (n % 2 ^ 6) 5 ≡ bit n 5
bit-mod n = ap (λ t. t == 1) (omega arith)

-- The direction of lines that were all set to one value.
opposite :
    {b x : Bool}
    → b ≡ x
    → let y = not b in
      (not x ≡ y)
      × (not x ≡ y)
      × (not x ≡ y)
      × (not x ≡ y)
      × (not x ≡ y)
      × (not x ≡ y)
      × (not x ≡ y)
      × (not x ≡ y)
opposite h = rw h (refl, refl, refl, refl, refl, refl, refl, refl)

module _ (board : Board) where
  -- A byte that the driver returns fits its type.
  pub get_reg-lt : (reg : Reg) (m : Mcu) → IsValid m → (get_reg board reg m).0 < 256
  unfolding get_reg
  get_reg-lt pdata m h = ground (arith, data_get_lem board m, sampled-lt board m.io m.reads)
  get_reg-lt pstat m h = omega (
    arith,
    weight-le (not (board m.reads m.io).pinb.b1) 128,
    weight-le (board (m.reads + 1) m.io).pinb.b2 64,
    weight-le (board (m.reads + 1 + 1) m.io).pind.b6 32,
    weight-le (board (m.reads + 1 + 1 + 1) m.io).pind.b7 16,
    weight-le (board (m.reads + 1 + 1 + 1 + 1) m.io).pind.b1 8,
  )
  get_reg-lt pcon m h = omega arith
  get_reg-lt addstr m h = ground (
    arith,
    epp_read_lem board true m,
    sampled-lt board (read_lines true m.io)
        (deciding board (read_lines true m.io) (m.reads + 1) + 1),
  )
  get_reg-lt datastr m h = ground (
    arith,
    epp_read_lem board false m,
    sampled-lt board (read_lines false m.io)
        (deciding board (read_lines false m.io) (m.reads + 1) + 1),
  )

  -- A byte written to the data register while the driver takes the data lines for outputs is read
  -- back and is in the output latches. Each data line that is an output in its direction register
  -- is driven to its bit, and each that is an input to nothing, as in the state that a strobe read
  -- in legacy mode leaves. No control line and no direction changes.
  pub get_reg-set_reg_pdata :
      (value : ℕ) (m : Mcu)
      → value < 256
      → data_is_output m ≡ true
      → let m' = (set_reg board pdata value m).1 in
        ((get_reg board pdata m').0 ≡ value)
        × (data_latches m'.io ≡ value)
        × (data_lines m'.io ≡ lines_showing m.io value)
        × SameControl m'.io m.io
  unfolding set_reg get_reg data_set
  get_reg-set_reg_pdata value m h out =
      let lines = data_set_lem value m.io h in
      (ground arith, rw out (lines.0), rw out refl, rw out (lines.1))

  -- A write of the data register while the data lines are inputs does nothing.
  pub set_reg-pdata_input :
      (value : ℕ) (m : Mcu) → data_is_output m ≡ false → (set_reg board pdata value m).1 ≡ m
  unfolding set_reg
  set_reg-pdata_input value m input = rw input

  -- The control register in every mode: the bits that are kept and read back (five in legacy
  -- mode, six in the others), the four control lines, all but RESET inverted, and, outside legacy
  -- mode, the direction that bit 5 gives the data lines. What is in the latches of the data lines
  -- stays.
  pub get_reg-set_reg_pcon :
      (value : ℕ) (m : Mcu)
      → let m' = (set_reg board pcon value m).1 in
        ((get_reg board pcon m').0
          ≡ (if mode_eq m.active_mode legacy then value % 2 ^ 5 else value % 2 ^ 6))
        × (m'.io.portc.b5 ≡ not (bit value 0))
        × (m'.io.portd.b0 ≡ not (bit value 1))
        × (m'.io.portd.b3 ≡ bit value 2)
        × (m'.io.portd.b5 ≡ not (bit value 3))
        × (mode_eq m.active_mode legacy ≡ false → Directed (not (bit value 5)) m'.io)
        × (data_latches m'.io ≡ data_latches m.io)
  unfolding set_reg get_reg
  get_reg-set_reg_pcon value m = elim (Bool-cases (mode_eq m.active_mode legacy)) [
    | inl old ↦ rw old (refl, refl, refl, refl, refl, λ e. cc, refl)
    | inr new ↦ elim (Bool-cases (bit (value % 2 ^ 6) 5)) [
      | inl input ↦
          rw (new, input)
            (refl, refl, refl, refl, refl, λ e. opposite (sym (bit-mod value) ∙ input), refl)
      | inr output ↦
          rw (new, output)
            (refl, refl, refl, refl, refl, λ e. opposite (sym (bit-mod value) ∙ output), refl)
    ]
  ]

  pub set_reg_pcon-active_mode :
      (value : ℕ) (m : Mcu) → (set_reg board pcon value m).1.active_mode ≡ m.active_mode
  unfolding set_reg
  set_reg_pcon-active_mode value m = elim (Bool-cases (mode_eq m.active_mode legacy)) [
    | inl old ↦ rw old refl
    | inr new ↦ rw new refl
  ]

  -- The time-out bit is the lowest bit of the status.
  pub status-mod :
      (m : Mcu)
      → ((get_reg board pstat m).0 % 2 ≡ m.last_pstat % 2)
        × ((get_reg board pstat m).1.last_pstat ≡ 0)
  unfolding get_reg
  status-mod m = (
    omega (
      arith,
      weight-even (not (board m.reads m.io).pinb.b1) 64,
      weight-even (board (m.reads + 1) m.io).pinb.b2 32,
      weight-even (board (m.reads + 1 + 1) m.io).pind.b6 16,
      weight-even (board (m.reads + 1 + 1 + 1) m.io).pind.b7 8,
      weight-even (board (m.reads + 1 + 1 + 1 + 1) m.io).pind.b1 4,
    ),
    refl,
  )

  pending :
      (addr_mode : Bool) (value : ℕ) (m : Mcu)
      → m.last_pstat < 2
      → m.active_mode ≡ epp
      → (set_reg board (strobe_reg addr_mode) value m).1.last_pstat % 2 ≡ (
          if (epp_write board value addr_mode (record m { last_addstr = value })).0
          then m.last_pstat
          else 1)
  unfolding set_reg
  pending true value m h e =
      ground (arith, epp_write_lem board value true (record m { last_addstr = value }))
  pending false value m h e =
      ground (arith, epp_write_lem board value false (record m { last_addstr = value }))

  -- In EPP mode and with a stored status below 2, after a write to a strobe register the lowest
  -- status bit is the one stored before if the cycle succeeded, and 1 if it failed; reading the
  -- status clears the bit.
  pub status-set_reg_strobe :
      (addr_mode : Bool) (value : ℕ) (m : Mcu)
      → m.last_pstat < 2
      → m.active_mode ≡ epp
      → let done = (epp_write board value addr_mode (record m { last_addstr = value })).0 in
        let m' = (set_reg board (strobe_reg addr_mode) value m).1 in
        let status = get_reg board pstat m' in
        (status.0 % 2 ≡ (if done then m.last_pstat else 1))
        × ((get_reg board pstat status.1).0 % 2 ≡ 0)
  status-set_reg_strobe addr_mode value m h e =
      let m' = (set_reg board (strobe_reg addr_mode) value m).1 in
      (
        omega (arith, status-mod m', pending addr_mode value m h e),
        omega (arith, status-mod m', status-mod (get_reg board pstat m').1),
      )
