-- ===== src/Injector/Log.antt =====
-- `LogLine` of LptToUsbAdapter/LptPatchInjector/CommonCode.c, over the streams of the C library.
use lpt_to_usb_adapter.Base.{
  ℕ, zero, suc, Bool, true, false, ◌&&◌, Option, none, some, List, [], ◌∷◌, ◌++◌, length, ltb,
  replicate, if◌then◌else◌,
}
use lpt_to_usb_adapter.Injectee.Filters.{same_string}
use lpt_to_usb_adapter.Injectee.Ports.{Outcome, died, returned}

-- A stream that is open for appending, with what was printed since it was last flushed.
pub record Stream : Type 0 where
  pub name : List ℕ
  pub buffer : List ℕ

-- The streams of the process, a `FILE*` being the position in the list, and what has reached the
-- files: each text with the file it was appended to, in order.
pub record Disk : Type 0 where
  pub streams : List Stream
  pub chunks : List (List ℕ × List ℕ)

-- `fopen_s(&file, name, "a")`, given whether the system lets it open the file.
abbrev pub fopen : Bool → List ℕ → Disk → Option ℕ × Disk
fopen opens name disk =
    if opens
    then (
      some (length disk.streams),
      record disk { streams = disk.streams ++ record { name = name; buffer = [] } ∷ [] },
    )
    else (none, disk)

-- The stream at a position, changed.
unfoldable pub with_stream : ℕ → (Stream → Stream) → List Stream → List Stream
with_stream file f [] = []
with_stream zero f (stream ∷ streams) = f stream ∷ streams
with_stream (suc file) f (stream ∷ streams) = stream ∷ with_stream file f streams

-- What flushing a stream appends to its file.
unfoldable pub pending : ℕ → List Stream → List (List ℕ × List ℕ)
pending file [] = []
pending zero (stream ∷ streams) = (stream.name, stream.buffer) ∷ []
pending (suc file) (stream ∷ streams) = pending file streams

-- `fprintf` of a text, and `fflush`.
abbrev pub fprintf : ℕ → List ℕ → Disk → Disk
fprintf file text disk =
    let printed : Stream → Stream = λ s. record s { buffer = s.buffer ++ text } in
    record disk { streams = with_stream file printed disk.streams }

abbrev pub fflush : ℕ → Disk → Disk
fflush file disk =
    let flushed : Stream → Stream = λ s. record s { buffer = [] } in
    record {
      streams = with_stream file flushed disk.streams;
      chunks = disk.chunks ++ pending file disk.streams;
    }

-- An entry of `opened_logs_cache`, and the cache with the files behind it.
pub record Slot : Type 0 where
  pub file : ℕ
  pub name : List ℕ
  pub used : Bool

pub record Log : Type 0 where
  pub cache : List Slot
  pub disk : Disk

abbrev pub free_slot : Slot
free_slot = record { file = 0; name = []; used = false }

-- The static cache before the first call.
abbrev pub empty_cache : List Slot
empty_cache = replicate 5 free_slot

-- The first loop: the stream of the file, if it is in the cache.
unfoldable pub find_used : List ℕ → List Slot → Option ℕ
find_used file [] = none
find_used file (slot ∷ slots) =
    let rest = find_used file slots in
    if slot.used && same_string slot.name file then some slot.file else rest

-- The second loop: the position of the first entry that is not in use.
unfoldable pub free_at : List Slot → Option ℕ
free_at [] = none
free_at (slot ∷ slots) =
    let rest = free_at slots in
    if slot.used then elim rest [ none ↦ none | some i ↦ some (suc i) ] else some 0

unfoldable pub set_slot : ℕ → Slot → List Slot → List Slot
set_slot i entry [] = []
set_slot zero entry (slot ∷ slots) = entry ∷ slots
set_slot (suc i) entry (slot ∷ slots) = slot ∷ set_slot i entry slots

-- `"%s: %s\n"`
abbrev pub stamped : List ℕ → List ℕ → List ℕ
stamped timebuffer line = timebuffer ++ (58 ∷ 32 ∷ line) ++ 10 ∷ []

abbrev pub print_line : List ℕ → List ℕ → List Slot → ℕ → Disk → Log
print_line timebuffer line cache file disk = record {
  cache = cache;
  disk = fflush file (fprintf file (stamped timebuffer line) disk);
}

-- `strncpy_s` of a name that does not fit ends the process.
abbrev pub keep_name : List ℕ → Log → Outcome Log
keep_name file log = if ltb (length file) 260 then returned log else died

-- A free entry takes the stream that was opened; it stays free if the file does not open.
abbrev pub open_line : Bool → List ℕ → List ℕ → List ℕ → Log → Outcome Log
open_line opens file timebuffer line log =
    let (opened, disk) = fopen opens file log.disk in
    elim (free_at log.cache) [
      | none ↦ returned log
      | some i ↦ elim opened [
        | none ↦ returned log
        | some stream ↦
            let entry : Slot = record { file = stream; name = file; used = true } in
            keep_name file (print_line timebuffer line (set_slot i entry log.cache) stream disk)
      ]
    ]

-- `LogLine`, given the time as `strftime` prints it.
unfoldable pub log_line : (List ℕ → Bool) → List ℕ → List ℕ → List ℕ → Log → Outcome Log
log_line opens file timebuffer line log = elim (find_used file log.cache) [
  | some stream ↦ returned (print_line timebuffer line log.cache stream log.disk)
  | none ↦ open_line (opens file) file timebuffer line log
]
