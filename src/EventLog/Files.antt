-- ===== src/EventLog/Files.antt =====
-- backend/event_log.py: the names of the files of the days, `stream_history` and `parse_since`.
use Prim.Native.Nat.{zero, suc}
use Prim.Native.Char.{code}
use dmr_decrep_shahar.Prelude.{
  nat_key, string_key, ℕ, ◌-◌, ◌*◌, String, Bool, true, false, ◌&&◌, Option, none, some, List, [],
  ◌∷◌, ◌++◌, ltb, leb, ◌==◌, contains, if◌then◌else◌,
}
use dmr_decrep_shahar.Sort.{sorted}
use dmr_decrep_shahar.Text.{size, take_chars, all_digits, number, strip}
use dmr_decrep_shahar.Models.{Event, type_name}
use dmr_decrep_shahar.EventIndex.{day_of, src_column, tgt_column}
use dmr_decrep_shahar.EventIndex.Queries.{Where, clause, is_number}
use dmr_decrep_shahar.EventLog.{EventLog, Line, event_line, junk}

-- `s[n:]`
unfoldable pub drop_chars : ℕ → String → String
drop_chars zero s = s
drop_chars (suc n) String.[] = String.[]
drop_chars (suc n) (String.◌∷◌ c s) = drop_chars n s

-- `s[n] == c`
unfoldable pub is_char : ℕ → ℕ → String → Bool
is_char n c String.[] = false
is_char zero c (String.◌∷◌ d s) = code d == c
is_char (suc n) c (String.◌∷◌ d s) = is_char n c s

-- `_day_from_filename`, of the name without its suffix
unfoldable pub day_from_filename : String → Option String
unfolding size drop_chars take_chars is_char all_digits
day_from_filename stem =
    let cand = drop_chars (size stem - 10) stem in
    if leb 10 (size stem)
      && is_char 4 b'-' cand
      && is_char 7 b'-' cand
      && all_digits (take_chars 4 cand)
      && all_digits (take_chars 2 (drop_chars 5 cand))
      && all_digits (drop_chars 8 cand)
    then some cand
    else none

-- the filters of `stream_history` on an event
unfoldable pub passes : Where → Event → Bool
unfolding clause is_number contains type_name src_column tgt_column day_of
passes w ev =
    clause w.since (λ t. leb t ev.timestamp)
    && clause w.until (λ t. leb ev.timestamp t)
    && clause w.day_from (λ d. leb d (day_of ev.timestamp))
    && clause w.day_to (λ d. leb (day_of ev.timestamp) d)
    && (elim w.types [ [] ↦ true | _ ∷ _ ↦ contains w.types (type_name ev.body) ])
    && clause w.src (is_number (src_column ev.body))
    && clause w.tgt (is_number (tgt_column ev.body))

-- the events of the lines of a file
unfoldable pub stream_lines : Where → List Line → List Event
unfolding passes
stream_lines w [] = []
stream_lines w (junk stored read ∷ lines) = stream_lines w lines
stream_lines w (event_line ev ∷ lines) =
    let rest = stream_lines w lines in if passes w ev then ev ∷ rest else rest

-- the files in the order of their names, those out of the range of days not opened
unfoldable pub stream_files : Where → List (ℕ × List Line) → List Event
unfolding clause stream_lines
stream_files w [] = []
stream_files w ((day, lines) ∷ files) =
    let rest = stream_files w files in
    if clause w.day_from (λ d. leb d day) && clause w.day_to (λ d. leb day d)
    then stream_lines w lines ++ rest
    else rest

-- `stream_history` of a log's history
unfoldable pub stream_history : EventLog → Where → List Event
unfolding sorted stream_files stream_lines
stream_history l w =
    if l.partition
    then stream_files w (sorted (λ a b. leb a.0 b.0) l.days)
    else stream_lines w l.history

-- the seconds of a unit
unfoldable pub unit_seconds : ℕ → Option ℕ
unit_seconds c =
    if c == b's'
    then some 1
    else if c == b'm'
    then some 60
    else if c == b'h'
    then some 3_600
    else if c == b'd'
    then some 86_400
    else none

-- the code of the last character
unfoldable pub last_code : String → ℕ
last_code String.[] = 0
last_code (String.◌∷◌ c s) = elim s [ String.[] ↦ code c | String.◌∷◌ d rest ↦ last_code s ]

-- the duration that `parse_since` subtracts from the time, in seconds, of a value such as "5m"; other
-- values go to `datetime.fromisoformat`
unfoldable pub since_seconds : String → Option ℕ
unfolding strip size take_chars all_digits number unit_seconds last_code
since_seconds value =
    let s = strip value in
    let digits = take_chars (size s - 1) s in
    if ltb 1 (size s) && all_digits digits
    then (elim (unit_seconds (last_code s)) [ none ↦ none | some n ↦ some (number digits * n) ])
    else none
