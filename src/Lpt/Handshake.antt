-- ===== src/Lpt/Handshake.antt =====
-- The handshake of `EppWrite` and `EppRead` in Firmware/AVRUSBLPT/lpt.c.
use lpt_to_usb_adapter.Base.{
  ℕ, zero, suc, ◌+◌, ◌≤◌, ◌≡◌, Bool, true, false, not, arith, bit, if◌then◌else◌, Bool-cases, inl,
  inr, Option, none, some,
}
use lpt_to_usb_adapter.Lpt.Pins.{
  Board, Io, Mcu, set_nstrobe, set_nline_feed, set_nselect_printer, out_data, in_data, data_set,
}
use lpt_to_usb_adapter.Lpt.Lines.{sampled, data_get_lem}
use lpt_to_usb_adapter.Lpt.Epp.{wait_ready, epp_write, epp_read}

-- The `nBUSY` line at the k-th read, with the registers at `io`.
abbrev pub ready_at : Board → Io → ℕ → Bool
ready_at board io k = (board k io).pinb.b1

-- How many reads the wait loop makes, from the k-th on, with `n` rounds left.
unfoldable pub polls : (ℕ → Bool) → ℕ → ℕ → ℕ
polls ready k zero = 0
polls ready k (suc n) = let rest = polls ready (k + 1) n in if ready k then 1 else suc rest

pub polls-le : (ready : ℕ → Bool) (k n : ℕ) → polls ready k n ≤ n
unfolding polls
polls-le ready k zero = omega arith
polls-le ready k (suc n) = ground (arith, polls-le ready (k + 1) n)

-- The registers during a write cycle, while the device is polled.
abbrev pub write_lines : ℕ → Bool → Io → Io
write_lines byte addr_mode io =
    set_nselect_printer (not addr_mode)
      (set_nline_feed addr_mode (data_set byte (set_nstrobe false (out_data io))))

-- The registers after a write cycle: the strobes and the write line are idle, and the data
-- lines have the direction that bit 5 of `PCON` selects.
abbrev pub write_done : ℕ → Bool → ℕ → Io → Io
write_done byte addr_mode pcon io = (if bit pcon 5 then in_data else out_data) (
    set_nstrobe true
      (set_nselect_printer true (set_nline_feed true (write_lines byte addr_mode io))))

-- The registers during a read cycle, and after it.
abbrev pub read_lines : Bool → Io → Io
read_lines addr_mode io =
    set_nselect_printer (not addr_mode) (set_nline_feed addr_mode (set_nstrobe true (in_data io)))

abbrev pub read_done : Bool → Io → Io
read_done addr_mode io = set_nselect_printer true (set_nline_feed true (read_lines addr_mode io))

-- `PCON | _BV(5)`
abbrev pub with_direction : ℕ → ℕ
with_direction pcon = if bit pcon 5 then pcon else pcon + 32

module _ (board : Board) where
  pub wait_ready_lem :
      (n : ℕ) (m : Mcu)
      → wait_ready board n m
        ≡ (tt, record m { reads = m.reads + polls (ready_at board m.io) m.reads n })
  unfolding wait_ready polls
  wait_ready_lem zero m = ground arith
  wait_ready_lem (suc n) m = ground (arith, wait_ready_lem n (record m { reads = m.reads + 1 }))

  -- The number of the read that decides a cycle, whose lines are `io`.
  abbrev pub deciding : Io → ℕ → ℕ
  deciding io k = k + polls (ready_at board io) k 10

  pub epp_write_lem :
      (byte : ℕ) (addr_mode : Bool) (m : Mcu)
      → epp_write board byte addr_mode m ≡ (
          if ready_at board m.io m.reads then (false, record m { reads = m.reads + 1 }) else (
            ready_at board
                (write_lines byte addr_mode m.io)
                (deciding (write_lines byte addr_mode m.io) (m.reads + 1)),
            record m {
              reads = deciding (write_lines byte addr_mode m.io) (m.reads + 1) + 1;
              io = write_done byte addr_mode m.last_pcon m.io;
            },
          ))
  unfolding epp_write
  epp_write_lem byte addr_mode m = elim (Bool-cases (ready_at board m.io m.reads)) [
    | inl busy ↦ rw busy
    | inr free ↦ rw free (rw wait_ready_lem)
  ]

  -- A read cycle whose deciding read is the d-th.
  abbrev pub read_outcome : Bool → Mcu → ℕ → Option ℕ × Mcu
  read_outcome addr_mode m d =
      let io = read_lines addr_mode m.io in
      let answered = ready_at board io d in
      let k = if answered then d + 1 + 8 else d + 1 in
      (
        if answered then some (sampled board io (d + 1)) else none,
        record m {
          reads = k + 1;
          io = read_done addr_mode m.io;
          last_pcon =
              if ready_at board (read_done addr_mode m.io) k
              then with_direction m.last_pcon
              else m.last_pcon;
        },
      )

  -- Whether the deciding read of a read cycle finds the device ready.
  abbrev pub answers : Bool → Mcu → Bool
  answers addr_mode m =
      ready_at board (read_lines addr_mode m.io)
        (deciding (read_lines addr_mode m.io) (m.reads + 1))

  pub epp_read_lem :
      (addr_mode : Bool) (m : Mcu)
      → epp_read board addr_mode m ≡ (
          if ready_at board m.io m.reads
          then (none, record m { reads = m.reads + 1 })
          else read_outcome addr_mode m (deciding (read_lines addr_mode m.io) (m.reads + 1)))
  unfolding epp_read
  epp_read_lem addr_mode m = elim (Bool-cases (ready_at board m.io m.reads)) [
    | inl busy ↦ rw busy
    | inr free ↦ rw free (elim (Bool-cases (answers addr_mode m)) [
      | inl answer ↦ rw wait_ready_lem (rw answer (rw data_get_lem))
      | inr silence ↦ rw wait_ready_lem (rw silence)
    ])
  ]
