-- ===== src/Lpt/Cycle.antt =====
-- What `EppWrite` and `EppRead` of Firmware/AVRUSBLPT/lpt.c report, for a device that holds its
-- answer until it is released.
use lpt_to_usb_adapter.Base.{
  ℕ, zero, suc, ◌+◌, ◌≡◌, ◌∙◌, ap, refl, Bool, true, not, ◌&&◌, arith, if◌then◌else◌, Bool-cases,
  inl, inr, none, some,
}
use lpt_to_usb_adapter.Lpt.Pins.{Board, Io, Mcu, Pins}
use lpt_to_usb_adapter.Lpt.Epp.{epp_write, epp_read}
use lpt_to_usb_adapter.Lpt.Lines.{shown, sampled}
use lpt_to_usb_adapter.Lpt.Handshake.{
  ready_at, polls, write_lines, read_lines, deciding, epp_write_lem, epp_read_lem,
}

-- Once raised, the line stays so.
abbrev pub Holds : (ℕ → Bool) → Type 0
Holds ready = (k : ℕ) → ready k ≡ true → ready (k + 1) ≡ true

Holds-add : {ready : ℕ → Bool} → Holds ready → (n k : ℕ) → ready k ≡ true → ready (k + n) ≡ true
Holds-add {ready} h zero k e = ground (arith, e)
Holds-add {ready} h (suc n) k e =
    let later : ready (k + 1 + n) ≡ true = Holds-add h n (k + 1) (h k e) in ground (arith, later)

Holds-polls :
    (ready : ℕ → Bool) → Holds ready → (n k : ℕ) → ready (k + polls ready k n) ≡ ready (k + n)
unfolding polls
Holds-polls ready h zero k = refl
Holds-polls ready h (suc n) k =
    ground (arith, h k, Holds-add h (suc n) k, Holds-polls ready h n (k + 1))

module _ (board : Board) where
  deciding-Holds :
      (io : Io) (k : ℕ)
      → Holds (ready_at board io)
      → ready_at board io (deciding board io k) ≡ ready_at board io (k + 10)
  deciding-Holds io k h = Holds-polls (ready_at board io) h 10 k

  -- Against a device that, with the lines of the write cycle, holds nBUSY high once it raised it,
  -- `EppWrite` returns true exactly when nBUSY is low at its first read and high at its twelfth,
  -- the last one that a cycle can make before it decides.
  pub epp_write-success :
      (byte : ℕ) (addr_mode : Bool) (m : Mcu)
      → Holds (ready_at board (write_lines byte addr_mode m.io))
      → (epp_write board byte addr_mode m).0 ≡ (
          not (ready_at board m.io m.reads)
          && ready_at board (write_lines byte addr_mode m.io) (m.reads + 11))
  epp_write-success byte addr_mode m h =
      let started = m.reads + 1 in
      let lines = write_lines byte addr_mode m.io in
      let eleventh : ready_at board lines (started + 10) ≡ ready_at board lines (m.reads + 11) =
        ap (ready_at board lines) (omega arith) in
      rw epp_write_lem (elim (Bool-cases (ready_at board m.io m.reads)) [
        | inl busy ↦ rw busy
        | inr free ↦ rw free (deciding-Holds lines started h ∙ eleventh)
      ])

  -- The device shows the same input registers at every read that finds it ready.
  abbrev pub Shows : Io → Pins → Type 0
  Shows io pins = (k : ℕ) → ready_at board io k ≡ true → board k io ≡ pins

  Shows-sampled :
      (io : Io) (pins : Pins) (k : ℕ)
      → Holds (ready_at board io)
      → Shows io pins
      → ready_at board io k ≡ true
      → sampled board io (k + 1) ≡ shown pins
  Shows-sampled io pins k hold show ready =
      let at = λ (n : ℕ). show (k + n) (Holds-add hold n k ready) in
      let later = λ (n : ℕ). show (k + 1 + n) (Holds-add hold n (k + 1) (hold k ready)) in
      rw (at 1, later 1, later 2, later 3, later 4, later 5, later 6, later 7)

  -- Against a device that, with the lines of the read cycle, holds nBUSY high once it raised it
  -- and shows the same input registers whenever nBUSY is high, `EppRead` stores the byte of their
  -- data lines when nBUSY is low at its first read and high at its twelfth, and else stores
  -- nothing and returns false.
  pub epp_read-success :
      (addr_mode : Bool) (m : Mcu) (pins : Pins)
      → Holds (ready_at board (read_lines addr_mode m.io))
      → Shows (read_lines addr_mode m.io) pins
      → (epp_read board addr_mode m).0 ≡ (
          if ready_at board m.io m.reads
          then none
          else if ready_at board (read_lines addr_mode m.io) (m.reads + 11)
          then some (shown pins)
          else none)
  epp_read-success addr_mode m pins hold show =
      let lines = read_lines addr_mode m.io in
      let decided = deciding board lines (m.reads + 1) in
      let eleventh : ready_at board lines decided ≡ ready_at board lines (m.reads + 11) =
        deciding-Holds lines (m.reads + 1) hold ∙ ap (ready_at board lines) (omega arith) in
      rw epp_read_lem (elim (Bool-cases (ready_at board m.io m.reads)) [
        | inl busy ↦ rw busy
        | inr free ↦ rw free (elim (Bool-cases (ready_at board lines decided)) [
          | inl answer ↦
              rw (answer, ← eleventh, answer)
                (ap some (Shows-sampled lines pins decided hold show answer))
          | inr silence ↦ rw (silence, ← eleventh, silence)
        ])
      ])
