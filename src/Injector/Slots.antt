-- ===== src/Injector/Slots.antt =====
-- The files that `LogLine` of LptToUsbAdapter/LptPatchInjector/CommonCode.c holds open, as a list
-- of names with the room that is left.
use lpt_to_usb_adapter.Base.{
  ℕ, zero, suc, ◌+◌, ◌≡◌, ◌⊎◌, refl, sym, ap, ◌∙◌, true, Option, none, some, Bool-cases, inl, inr,
  List, [], ◌∷◌, ◌++◌, map, length, replicate, if◌then◌else◌, arith,
}
use lpt_to_usb_adapter.Injectee.Filters.{same_string}
use lpt_to_usb_adapter.Injectee.Same.{same_string_refl, same_string_equal}
use lpt_to_usb_adapter.Injector.Log.{
  Stream, Slot, Log, free_slot, with_stream, pending, find_used, free_at, set_slot, stamped,
  print_line,
}

-- A call of `LogLine`, with the time it is made at.
pub record Call : Type 0 where
  pub file : List ℕ
  pub time : List ℕ
  pub line : List ℕ

-- The abstract log: the files that are open, in the order of their first lines, how many more can
-- be opened, and the texts with their files.
abbrev pub stream_of : List ℕ → Stream
stream_of name = record { name = name; buffer = [] }

unfoldable pub slots_of : ℕ → List (List ℕ) → List Slot
slots_of file [] = []
slots_of file (name ∷ names) =
    record { file = file; name = name; used = true } ∷ slots_of (suc file) names

abbrev pub log_of : ℕ → List (List ℕ) → List (List ℕ × List ℕ) → Log
log_of room names chunks = record {
  cache = slots_of 0 names ++ replicate room free_slot;
  disk = record { streams = map stream_of names; chunks = chunks };
}

abbrev pub text_of : Call → List ℕ × List ℕ
text_of c = (c.file, stamped c.time c.line)

-- The position of a file among those that are open.
unfoldable pub position : List ℕ → List (List ℕ) → Option ℕ
position file [] = none
position file (name ∷ names) =
    let rest = position file names in
    if same_string name file then some 0 else elim rest [ none ↦ none | some i ↦ some (suc i) ]

abbrev offset : ℕ → Option ℕ → Option ℕ
offset k none = none
offset k (some i) = some (k + i)

offset-suc :
    (k : ℕ) (o : Option ℕ)
    → offset (suc k) o ≡ offset k (elim o [ none ↦ none | some i ↦ some (suc i) ])
offset-suc k none = refl
offset-suc k (some i) = ap some (omega arith)

find_used-free : (file : List ℕ) (room : ℕ) → find_used file (replicate room free_slot) ≡ none
unfolding find_used
find_used-free file zero = refl
find_used-free file (suc room) = find_used-free file room

find_used-slots_of :
    (file : List ℕ) (k room : ℕ) (names : List (List ℕ))
    → find_used file (slots_of k names ++ replicate room free_slot) ≡ offset k (position file names)
unfolding find_used slots_of position
find_used-slots_of file k room [] = find_used-free file room
find_used-slots_of file k room (name ∷ names) = elim (Bool-cases (same_string name file)) [
  | inl same ↦ rw same (ap some (omega arith))
  | inr other ↦
      rw (other, find_used-slots_of file (suc k) room names) (offset-suc k (position file names))
]

-- Printing to an open file and flushing appends the text, and leaves the streams as they were.
pub record Printed (file text : List ℕ) (i : ℕ) (streams : List Stream) : Type 0 where
  pub appended :
      pending i (with_stream i (λ s. record s { buffer = s.buffer ++ text }) streams)
      ≡ (file, text) ∷ []
  pub emptied :
      with_stream i
        (λ s. record s { buffer = [] })
        (with_stream i (λ s. record s { buffer = s.buffer ++ text }) streams)
      ≡ streams

some-equal : {a b : ℕ} → some a ≡ some b → a ≡ b
some-equal e = ground arith

position-suc :
    (o : Option ℕ) (i : ℕ)
    → elim o [ none ↦ none | some j ↦ some (suc j) ] ≡ some i
    → (j : ℕ) × (o ≡ some j) × (i ≡ suc j)
position-suc none i e = ground (arith, e)
position-suc (some j) i e = (j, refl, sym (some-equal e))

position-cons :
    (file name : List ℕ) (names : List (List ℕ)) (i : ℕ)
    → position file (name ∷ names) ≡ some i
    → ((name ≡ file) × (i ≡ 0)) ⊎ ((j : ℕ) × (position file names ≡ some j) × (i ≡ suc j))
unfolding position
position-cons file name names i e = elim (Bool-cases (same_string name file)) [
  | inl same ↦ inl (same_string_equal name file same, some-equal (rw⁻¹ e (rw same refl)))
  | inr other ↦ inr (position-suc (position file names) i (rw⁻¹ e (rw other refl)))
]

first-Printed :
    (file text : List ℕ) (streams : List Stream) → Printed file text 0 (stream_of file ∷ streams)
unfolding with_stream pending
first-Printed file text streams = record { appended = refl; emptied = refl }

later-Printed :
    (file text : List ℕ) (i : ℕ) (stream : Stream) (streams : List Stream)
    → Printed file text i streams
    → Printed file text (suc i) (stream ∷ streams)
unfolding with_stream pending
later-Printed file text i stream streams p = record {
  appended = p.appended;
  emptied = ap (◌∷◌ stream) p.emptied;
}

pub position-Printed :
    (file text : List ℕ) (names : List (List ℕ)) (i : ℕ)
    → position file names ≡ some i
    → Printed file text i (map stream_of names)
unfolding position
position-Printed file text [] i e = ground (arith, e)
position-Printed file text (name ∷ names) i e = elim (position-cons file name names i e) [
  | inl (same, z) ↦ rw (same, z) (first-Printed file text (map stream_of names))
  | inr (j, there, n) ↦
      let p = position-Printed file text names j there in
      rw n (later-Printed file text j (stream_of name) (map stream_of names) p)
]

position-none : (o : Option ℕ) → elim o [ none ↦ none | some j ↦ some (suc j) ] ≡ none → o ≡ none
position-none none e = refl
position-none (some j) e = ground (arith, e)

-- A file that is not open is opened after those that are.
pub position-append :
    (file : List ℕ) (names : List (List ℕ))
    → position file names ≡ none
    → position file (names ++ file ∷ []) ≡ some (length names)
unfolding position
position-append file [] e = rw (same_string_refl file) refl
position-append file (name ∷ names) e = elim (Bool-cases (same_string name file)) [
  | inl same ↦ ground (arith, e, same)
  | inr other ↦
      let absent = position-none (position file names) (rw⁻¹ e (rw other refl)) in
      rw (other, position-append file names absent) refl
]

pub map-append :
    (names more : List (List ℕ))
    → map stream_of (names ++ more) ≡ map stream_of names ++ map stream_of more
map-append [] more = refl
map-append (name ∷ names) more = ap (◌∷◌ (stream_of name)) (map-append names more)

pub free_at-slots_of :
    (k room : ℕ) (names : List (List ℕ))
    → free_at (slots_of k names ++ replicate (suc room) free_slot) ≡ some (length names)
unfolding free_at slots_of
free_at-slots_of k room [] = refl
free_at-slots_of k room (name ∷ names) = rw (free_at-slots_of (suc k) room names) refl

pub free_at-full : (k : ℕ) (names : List (List ℕ)) → free_at (slots_of k names ++ []) ≡ none
unfolding free_at slots_of
free_at-full k [] = refl
free_at-full k (name ∷ names) = rw (free_at-full (suc k) names) refl

set_slot-slots_of :
    (file : List ℕ) (k room : ℕ) (names : List (List ℕ))
    → set_slot
        (length names)
        (record { file = k + length names; name = file; used = true })
        (slots_of k names ++ replicate (suc room) free_slot)
      ≡ slots_of k (names ++ file ∷ []) ++ replicate room free_slot
unfolding set_slot slots_of
set_slot-slots_of file k room [] = let e : k + 0 ≡ k = omega arith in rw e refl
set_slot-slots_of file k room (name ∷ names) =
    let e : k + suc (length names) ≡ suc k + length names = omega arith in
    rw e (
      ap (◌∷◌ (record { file = k; name = name; used = true }))
        (set_slot-slots_of file (suc k) room names))

pub length-streams : (names : List (List ℕ)) → length (map stream_of names) ≡ length names
length-streams [] = refl
length-streams (name ∷ names) = ap suc (length-streams names)

pub set_slot-start :
    (file : List ℕ) (room : ℕ) (names : List (List ℕ))
    → set_slot
        (length names)
        (record { file = length names; name = file; used = true })
        (slots_of 0 names ++ replicate (suc room) free_slot)
      ≡ slots_of 0 (names ++ file ∷ []) ++ replicate room free_slot
set_slot-start file room names =
    let e : 0 + length names ≡ length names = omega arith in
    rw⁻¹ (set_slot-slots_of file 0 room names) (rw e refl)

offset-zero : (o : Option ℕ) → offset 0 o ≡ o
offset-zero none = refl
offset-zero (some i) = ap some (omega arith)

pub find_used-position :
    (file : List ℕ) (room : ℕ) (names : List (List ℕ))
    → find_used file (slots_of 0 names ++ replicate room free_slot) ≡ position file names
find_used-position file room names =
    find_used-slots_of file 0 room names ∙ offset-zero (position file names)

abbrev pub log_with : List Slot → List Stream → List (List ℕ × List ℕ) → Log
log_with cache streams chunks = record {
  cache = cache;
  disk = record { streams = streams; chunks = chunks };
}

pub print_line-Printed :
    (c : Call) (cache : List Slot) (streams : List Stream) (chunks : List (List ℕ × List ℕ)) (i : ℕ)
    → Printed c.file (stamped c.time c.line) i streams
    → print_line c.time c.line cache i (record { streams = streams; chunks = chunks })
      ≡ log_with cache streams (chunks ++ text_of c ∷ [])
print_line-Printed c cache streams chunks i p =
    ap
      (λ (s : List Stream). log_with cache s (
        chunks
        ++ pending i
            (with_stream i (λ s. record s { buffer = s.buffer ++ stamped c.time c.line }) streams)))
      p.emptied
    ∙ ap (λ (t : List (List ℕ × List ℕ)). log_with cache streams (chunks ++ t)) p.appended
