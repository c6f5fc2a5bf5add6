-- ===== src/Lpt/Lines.antt =====
-- The data lines of Firmware/AVRUSBLPT/lpt.c: what `DataSet` sets and what `DataGet` samples.
use native.Mathlib.Nat.{add_assoc}
use lpt_to_usb_adapter.Base.{
  Bool, Option, none, some, List, [], ◌∷◌, bit, if◌then◌else◌, ℕ, ◌+◌, ◌<◌, ◌≡◌, refl, arith,
  byte_of, byte_of-bit, byte_of-lt,
}
use lpt_to_usb_adapter.Lpt.Pins.{Board, Pins, Io, Mcu, data_set, data_get, data_latches}

-- The control lines and the pins of no line: everything that the data lines leave alone.
abbrev pub SameControl : Io → Io → Type 0
SameControl a b =
    (a.portd ≡ b.portd)
    × (a.portc.b5 ≡ b.portc.b5)
    × (a.portc.b6 ≡ b.portc.b6)
    × (a.portc.b7 ≡ b.portc.b7)
    × (a.portb.b0 ≡ b.portb.b0)
    × (a.portb.b1 ≡ b.portb.b1)
    × (a.portb.b2 ≡ b.portb.b2)
    × (a.portb.b6 ≡ b.portb.b6)
    × (a.portb.b7 ≡ b.portb.b7)
    × (a.ddrb ≡ b.ddrb)
    × (a.ddrc ≡ b.ddrc)
    × (a.ddrd ≡ b.ddrd)

-- `DataSet` puts the byte into the eight latches, and changes no other pin and no direction.
pub data_set_lem :
    (value : ℕ) (io : Io)
    → value < 256
    → (data_latches (data_set value io) ≡ value) × SameControl (data_set value io) io
unfolding data_set
data_set_lem value io h =
    (byte_of-bit value h, (refl, refl, refl, refl, refl, refl, refl, refl, refl, refl, refl, refl))

-- What a pin drives its line to: its latch, or nothing while it is an input.
abbrev line_driver : Bool → Bool → Option Bool
line_driver output latch = if output then some latch else none

-- What the data lines are driven to, D0 first.
abbrev pub data_lines : Io → List (Option Bool)
data_lines io =
    line_driver io.ddrc.b4 io.portc.b4
    ∷ line_driver io.ddrc.b3 io.portc.b3
    ∷ line_driver io.ddrc.b2 io.portc.b2
    ∷ line_driver io.ddrc.b1 io.portc.b1
    ∷ line_driver io.ddrc.b0 io.portc.b0
    ∷ line_driver io.ddrb.b5 io.portb.b5
    ∷ line_driver io.ddrb.b4 io.portb.b4
    ∷ line_driver io.ddrb.b3 io.portb.b3
    ∷ []

-- The bits of a byte, D0 first, on the data lines that are outputs.
abbrev pub lines_showing : Io → ℕ → List (Option Bool)
lines_showing io value =
    line_driver io.ddrc.b4 (bit value 0)
    ∷ line_driver io.ddrc.b3 (bit value 1)
    ∷ line_driver io.ddrc.b2 (bit value 2)
    ∷ line_driver io.ddrc.b1 (bit value 3)
    ∷ line_driver io.ddrc.b0 (bit value 4)
    ∷ line_driver io.ddrb.b5 (bit value 5)
    ∷ line_driver io.ddrb.b4 (bit value 6)
    ∷ line_driver io.ddrb.b3 (bit value 7)
    ∷ []

-- The byte that the data lines show.
abbrev pub shown : Pins → ℕ
shown p = byte_of p.pinc.b4 p.pinc.b3 p.pinc.b2 p.pinc.b1 p.pinc.b0 p.pinb.b5 p.pinb.b4 p.pinb.b3

-- The byte that eight reads find on the data lines, from the k-th read on.
abbrev pub sampled : Board → Io → ℕ → ℕ
sampled board io k =
    byte_of (board k io).pinc.b4 (board (k + 1) io).pinc.b3 (board (k + 2) io).pinc.b2
      (board (k + 3) io).pinc.b1 (board (k + 4) io).pinc.b0 (board (k + 5) io).pinb.b5
      (board (k + 6) io).pinb.b4 (board (k + 7) io).pinb.b3

pub data_get_lem :
    (board : Board) (m : Mcu)
    → data_get board m ≡ (sampled board m.io m.reads, record m { reads = m.reads + 8 })
unfolding data_get
data_get_lem board m = simp add_assoc

-- While the input registers stay as they are, `DataGet` returns the byte that they show, in
-- eight reads.
pub data_get-shown :
    (board : Board) (m : Mcu) (pins : Pins)
    → ((k : ℕ) → board k m.io ≡ pins)
    → data_get board m ≡ (shown pins, record m { reads = m.reads + 8 })
unfolding data_get
data_get-shown board m pins h = simp h (ground arith)

pub sampled-lt : (board : Board) (io : Io) (k : ℕ) → sampled board io k < 256
sampled-lt board io k = byte_of-lt _ _ _ _ _ _ _ _
