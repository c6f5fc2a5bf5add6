-- ===== src/Injector/Lines.antt =====
-- What one call of `LogLine` in LptToUsbAdapter/LptPatchInjector/CommonCode.c does, by the files
-- that are open.
use lpt_to_usb_adapter.Base.{
  ℕ, suc, ◌<◌, ◌≡◌, refl, sym, ap, Bool, true, none, some, List, [], ◌∷◌, ◌++◌, map, length, ltb,
  replicate, arith,
}
use lpt_to_usb_adapter.Injectee.Ports.{returned}
use lpt_to_usb_adapter.Injector.Log.{free_slot, stamped, open_line, keep_name, fopen, log_line}
use lpt_to_usb_adapter.Injector.Slots.{
  Call, stream_of, slots_of, log_of, text_of, position, position-append, position-Printed,
  free_at-slots_of, free_at-full, find_used-position, print_line-Printed, set_slot-start,
  length-streams, map-append,
}

module _ (opens : List ℕ → Bool) where
  -- A line for a file that is open is appended to that file.
  pub log_line-open :
      (c : Call) (room : ℕ) (names : List (List ℕ)) (chunks : List (List ℕ × List ℕ)) (i : ℕ)
      → position c.file names ≡ some i
      → log_line opens c.file c.time c.line (log_of room names chunks)
        ≡ returned (log_of room names (chunks ++ text_of c ∷ []))
  unfolding log_line
  log_line-open c room names chunks i e =
      let p = position-Printed c.file (stamped c.time c.line) names i e in
      let cache = slots_of 0 names ++ replicate room free_slot in
      rw (log_line, find_used-position c.file room names, e)
        (ap returned (print_line-Printed c cache (map stream_of names) chunks i p))

  -- Otherwise the file is opened, if there is room.
  pub log_line-new :
      (c : Call) (room : ℕ) (names : List (List ℕ)) (chunks : List (List ℕ × List ℕ))
      → position c.file names ≡ none
      → opens c.file ≡ true
      → length c.file < 260
      → log_line opens c.file c.time c.line (log_of (suc room) names chunks)
        ≡ returned (log_of room (names ++ c.file ∷ []) (chunks ++ text_of c ∷ []))
  unfolding log_line
  log_line-new c room names chunks e o short =
      let known = position-append c.file names e in
      let p =
        position-Printed c.file (stamped c.time c.line) (names ++ c.file ∷ []) (length names)
          known in
      let cache = slots_of 0 (names ++ c.file ∷ []) ++ replicate room free_slot in
      let fits : ltb (length c.file) 260 ≡ true = ground (arith, short) in
      rw
        (
          log_line,
          find_used-position c.file (suc room) names,
          e,
          open_line,
          free_at-slots_of 0 room names,
          length-streams names,
          o,
          set_slot-start c.file room names,
          keep_name,
          fits,
          fopen,
          o,
          sym (map-append names (c.file ∷ [])),
        )
        (ap returned (
          print_line-Printed c cache (map stream_of (names ++ c.file ∷ [])) chunks (length names)
            p))

  pub log_line-room :
      (c : Call) (left room : ℕ) (names : List (List ℕ)) (chunks : List (List ℕ × List ℕ))
      → left ≡ suc room
      → position c.file names ≡ none
      → opens c.file ≡ true
      → length c.file < 260
      → log_line opens c.file c.time c.line (log_of left names chunks)
        ≡ returned (log_of room (names ++ c.file ∷ []) (chunks ++ text_of c ∷ []))
  log_line-room c left room names chunks l e o short =
      rw l (log_line-new c room names chunks e o short)

  pub log_line-full :
      (c : Call) (names : List (List ℕ)) (chunks : List (List ℕ × List ℕ))
      → position c.file names ≡ none
      → log_line opens c.file c.time c.line (log_of 0 names chunks)
        ≡ returned (log_of 0 names chunks)
  unfolding log_line
  log_line-full c names chunks e =
      rw (log_line, find_used-position c.file 0 names, e, open_line, free_at-full 0 names) refl
