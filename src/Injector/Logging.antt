-- ===== src/Injector/Logging.antt =====
-- What a sequence of calls of `LogLine` in LptToUsbAdapter/LptPatchInjector/CommonCode.c writes.
use lpt_to_usb_adapter.Base.{
  ℕ, suc, ◌+◌, ◌-◌, ◌<◌, ◌≤◌, ◌≡◌, refl, sym, ap, ◌∙◌, Bool, true, Option, none, some, Option-cases,
  Bool-cases, inl, inr, List, [], ◌∷◌, ◌++◌, map, length, length-append, append_assoc, append-nil,
  if◌then◌else◌, arith,
}
use lpt_to_usb_adapter.Injectee.Filters.{same_string}
use lpt_to_usb_adapter.Injectee.Ports.{Outcome, died, returned}
use lpt_to_usb_adapter.Injector.Log.{Log, empty_cache, stamped, log_line}
use lpt_to_usb_adapter.Injector.Slots.{Call, slots_of, log_of, text_of, position}
use lpt_to_usb_adapter.Injector.Lines.{log_line-open, log_line-room}

abbrev pub and_then : Outcome Log → (Log → Outcome Log) → Outcome Log
and_then died k = died
and_then (returned log) k = k log

-- Calls of `LogLine`, one after the other.
unfoldable pub log_lines : (List ℕ → Bool) → List Call → Log → Outcome Log
log_lines opens [] log = returned log
log_lines opens (c ∷ cs) log =
    and_then (log_line opens c.file c.time c.line log) (log_lines opens cs)

-- The files of the calls, in the order of their first lines.
abbrev pub with_file : List ℕ → List (List ℕ) → List (List ℕ)
with_file file names = elim (position file names) [ none ↦ names ++ file ∷ [] | some i ↦ names ]

unfoldable pub files_of : List (List ℕ) → List Call → List (List ℕ)
files_of names [] = names
files_of names (c ∷ cs) = files_of (with_file c.file names) cs

-- The files can be opened, and their names fit into an entry.
unfoldable pub AllOpen : (List ℕ → Bool) → List Call → Type 0
AllOpen opens [] = Unit {0}
AllOpen opens (c ∷ cs) = (opens c.file ≡ true) × (length c.file < 260) × AllOpen opens cs

-- What a file holds, and the lines that calls print to it.
unfoldable pub contents : List ℕ → List (List ℕ × List ℕ) → List ℕ
contents file [] = []
contents file ((name, text) ∷ chunks) =
    let rest = contents file chunks in if same_string name file then text ++ rest else rest

unfoldable pub printed : List ℕ → List Call → List ℕ
printed file [] = []
printed file (c ∷ cs) =
    let rest = printed file cs in
    if same_string c.file file then stamped c.time c.line ++ rest else rest

contents-append :
    (file : List ℕ) (chunks more : List (List ℕ × List ℕ))
    → contents file (chunks ++ more) ≡ contents file chunks ++ contents file more
unfolding contents
contents-append file [] more = refl
contents-append file ((name, text) ∷ chunks) more = elim (Bool-cases (same_string name file)) [
  | inl same ↦
      rw (same, contents-append file chunks more)
        (sym (append_assoc text (contents file chunks) (contents file more)))
  | inr other ↦ rw (other, contents-append file chunks more) refl
]

contents-text_of :
    (file : List ℕ) (calls : List Call) → contents file (map text_of calls) ≡ printed file calls
unfolding contents printed
contents-text_of file [] = refl
contents-text_of file (c ∷ cs) = rw (contents-text_of file cs) refl

with_file-known :
    (file : List ℕ) (names : List (List ℕ)) (i : ℕ)
    → position file names ≡ some i
    → with_file file names ≡ names
with_file-known file names i e = rw (with_file, e) refl

with_file-new :
    (file : List ℕ) (names : List (List ℕ))
    → position file names ≡ none
    → with_file file names ≡ names ++ file ∷ []
with_file-new file names e = rw (with_file, e) refl

length-files_of :
    (calls : List Call) (names : List (List ℕ)) → length names ≤ length (files_of names calls)
unfolding files_of
length-files_of [] names = omega arith
length-files_of (c ∷ cs) names = elim (Option-cases (position c.file names)) [
  | inl new ↦
      rw (with_file, new)
        (omega
          (arith, length-append names (c.file ∷ []), length-files_of cs (names ++ c.file ∷ [])))
  | inr (i, known) ↦ rw (with_file, known) (length-files_of cs names)
]

-- Whatever is open, the calls' texts are appended in their order while there is room.
AllWritten : (List ℕ → Bool) → List Call → ℕ → List (List ℕ) → List (List ℕ × List ℕ) → Type 0
AllWritten opens calls room names chunks =
    (left : ℕ) × (log_lines opens calls (log_of room names chunks)
      ≡ returned (log_of left (files_of names calls) (chunks ++ map text_of calls)))

cons-AllWritten :
    (opens : List ℕ → Bool) (c : Call) (cs : List Call) (room room' : ℕ)
    (names names' : List (List ℕ)) (chunks : List (List ℕ × List ℕ))
    → with_file c.file names ≡ names'
    → log_line opens c.file c.time c.line (log_of room names chunks)
      ≡ returned (log_of room' names' (chunks ++ text_of c ∷ []))
    → AllWritten opens cs room' names' (chunks ++ text_of c ∷ [])
    → AllWritten opens (c ∷ cs) room names chunks
unfolding log_lines files_of AllWritten
cons-AllWritten opens c cs room room' names names' chunks files line (left, e) = (
  left,
  rw (files, line, and_then, e)
      (ap (λ (t : List (List ℕ × List ℕ)). returned (log_of left (files_of names' cs) t))
        (append_assoc chunks (text_of c ∷ []) (map text_of cs))),
)

files_of-cons :
    (c : Call) (cs : List Call) (names names' : List (List ℕ))
    → with_file c.file names ≡ names'
    → length (files_of names (c ∷ cs)) ≡ length (files_of names' cs)
unfolding files_of
files_of-cons c cs names names' e = rw e refl

log_lines-AllWritten :
    (opens : List ℕ → Bool) (calls : List Call) (room : ℕ) (names : List (List ℕ))
    (chunks : List (List ℕ × List ℕ))
    → AllOpen opens calls
    → length (files_of names calls) ≤ room + length names
    → AllWritten opens calls room names chunks
unfolding AllOpen log_lines files_of AllWritten
log_lines-AllWritten opens [] room names chunks all enough = (room, rw (append-nil chunks) refl)
log_lines-AllWritten opens (c ∷ cs) room names chunks (o, short, all) enough =
    let more = chunks ++ text_of c ∷ [] in
    elim (Option-cases (position c.file names)) [
      | inr (i, known) ↦
          let files = with_file-known c.file names i known in
          let line = log_line-open opens c room names chunks i known in
          let enough' : length (files_of names cs) ≤ room + length names =
            omega (arith, files_of-cons c cs names names files) in
          let rest = log_lines-AllWritten opens cs room names more all enough' in
          cons-AllWritten opens c cs room room names names chunks files line rest
      | inl new ↦
          let names' = names ++ c.file ∷ [] in
          let files = with_file-new c.file names new in
          let fewer = files_of-cons c cs names names' files in
          let longer = length-append names (c.file ∷ []) in
          let left : room ≡ suc (room - 1) =
            omega (arith, fewer, longer, length-files_of cs names') in
          let line = log_line-room opens c room (room - 1) names chunks left new o short in
          let rest =
            log_lines-AllWritten opens cs (room - 1) names' more all
              (omega (arith, fewer, longer)) in
          cons-AllWritten opens c cs room (room - 1) names names' chunks files line rest
    ]

-- From the first call on, if the calls are about at most five files, and these can be opened and
-- have names of fewer than 260 characters, then every call returns and every file ends with
-- exactly the lines of the calls that name it, in their order, whatever was in it before.
pub log_lines-printed :
    (opens : List ℕ → Bool) (calls : List Call) (chunks : List (List ℕ × List ℕ)) (file : List ℕ)
    → AllOpen opens calls
    → length (files_of [] calls) ≤ 5
    → (log : Log) × (log_lines opens calls
          (record { cache = empty_cache; disk = record { streams = []; chunks = chunks } })
        ≡ returned log)
      × (contents file log.disk.chunks ≡ contents file chunks ++ printed file calls)
unfolding AllWritten slots_of
log_lines-printed opens calls chunks file all five =
    let (left, e) = log_lines-AllWritten opens calls 5 [] chunks all five in
    (
      log_of left (files_of [] calls) (chunks ++ map text_of calls),
      e,
      contents-append file chunks (map text_of calls)
          ∙ ap (contents file chunks ++◌) (contents-text_of file calls),
    )

-- The calls whose file is among those that are open.
abbrev when_open : Option ℕ → Call → List Call → List Call
when_open none c cs = cs
when_open (some i) c cs = c ∷ cs

unfoldable pub kept : List (List ℕ) → List Call → List Call
kept names [] = []
kept names (c ∷ cs) = when_open (position c.file names) c (kept names cs)
