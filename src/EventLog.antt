-- ===== src/EventLog.antt =====
-- backend/event_log.py: `EventLog`, its state and what writes it. A line of a file is what `json.loads`
-- and the validation make of it: an event, or nothing. A day stands for the text of its date. What the
-- file system and the index do in a call, whether it succeeds, is an argument.
pub mod Files
pub mod Retention
pub mod Survivors
pub mod Rebuild
pub mod Reading
pub mod Quality
pub mod Appending
pub mod Rewrite
pub mod Journal
pub mod Writing
pub mod Days
use dmr_decrep_shahar.Prelude.{
  nat_key, ℕ, ◌+◌, ◌-◌, Bool, true, false, not, ◌&&◌, Option, none, some, List, [], ◌∷◌, ◌++◌,
  length, drop, ◌==◌, if◌then◌else◌,
}
use dmr_decrep_shahar.Dict.{Dict, get, put}
use dmr_decrep_shahar.Models.{Event}
use dmr_decrep_shahar.EventIndex.{EventIndex, day_of, index_append, clear_index, close}

-- a line of a file: an event as `append` writes it, or anything that is not JSON, such as what a loss of
-- power leaves, with its bytes and with those of its text once invalid ones are replaced
pub data Line : Type 0 where
  event_line : Event → Line
  junk : ℕ → ℕ → Line

-- `has_path` is whether there is a path to write to; `history` is the single file, `days` the files
-- of the days; `writer` is whether `_fh` is open, on the file of `current_day` if partitioned
pub record EventLog : Type 0 where
  pub capacity : ℕ
  pub has_path : Bool
  pub partition : Bool
  pub buf : List Event
  pub current_day : Option ℕ
  pub writer : Bool
  pub history : List Line
  pub days : Dict ℕ (List Line)
  pub index : Option EventIndex
  pub index_failed_once : Bool
  pub write_errors : ℕ

-- what succeeds in an `append`
pub record Outcome : Type 0 where
  pub opens : Bool
  pub writes : Bool
  pub indexes : Bool

abbrev pub all_well : Outcome
all_well = record { opens = true; writes = true; indexes = true }

-- `__init__`, without files yet
unfoldable pub new_log : ℕ → Bool → Bool → Option EventIndex → EventLog
new_log capacity has_path partition index = record {
  capacity = capacity;
  has_path = has_path;
  partition = partition && has_path;
  buf = [];
  current_day = none;
  writer = has_path && not partition;
  history = [];
  days = [];
  index = if has_path then index else none;
  index_failed_once = false;
  write_errors = 0;
}

-- `self._buf.append(ev)`, of a deque with a `maxlen`
unfoldable pub push : ℕ → List Event → Event → List Event
push capacity buf ev = drop (length (buf ++ ev ∷ []) - capacity) (buf ++ ev ∷ [])

-- the lines of the file of a day
unfoldable pub day_lines : Dict ℕ (List Line) → ℕ → List Line
unfolding get
day_lines days day = elim (get days day) [ none ↦ [] | some xs ↦ xs ]

-- `day == self._current_day`
unfoldable pub is_current : Option ℕ → ℕ → Bool
is_current current day = elim current [ none ↦ false | some d ↦ d == day ]

-- `_ensure_day_writer_locked`; a file that is opened is there
unfoldable pub ensure_day_writer : Bool → EventLog → ℕ → EventLog
unfolding day_lines put is_current
ensure_day_writer opens l day =
    if l.writer && is_current l.current_day day
    then l
    else if opens
    then record l {
      writer = true;
      current_day = some day;
      days = put l.days day (day_lines l.days day);
    }
    else record l { writer = false; write_errors = l.write_errors + 1 }

-- a line at the end of the file that is open
unfoldable pub write_line : EventLog → Line → EventLog
unfolding day_lines put
write_line l line =
    if l.partition
    then (elim l.current_day [
      | none ↦ l
      | some day ↦ record l { days = put l.days day (day_lines l.days day ++ line ∷ []) }
    ])
    else record l { history = l.history ++ line ∷ [] }

unfoldable pub write_event : Bool → EventLog → Event → EventLog
unfolding write_line
write_event writes l ev =
    if l.writer
    then (if writes
        then write_line l (event_line ev)
        else record l { write_errors = l.write_errors + 1 })
    else l

unfoldable pub index_event : ℕ → Bool → EventLog → Event → EventLog
unfolding index_append
index_event now indexes l ev = elim l.index [
  | none ↦ l
  | some x ↦
      if indexes
      then record l { index = some (index_append now x ev) }
      else record l { index_failed_once = true }
]

-- the writer that an event needs
unfoldable pub ready_writer : Bool → EventLog → Event → EventLog
unfolding ensure_day_writer day_of
ready_writer opens l ev = if l.partition then ensure_day_writer opens l (day_of ev.timestamp) else l

-- `append`
unfoldable pub append_event : ℕ → Outcome → EventLog → Event → EventLog
unfolding push ready_writer write_event index_event
append_event now o l ev =
    let pushed = record l { buf = push l.capacity l.buf ev } in
    index_event now o.indexes (write_event o.writes (ready_writer o.opens pushed ev) ev) ev

-- `prime_from_jsonl`: the lines of the file that it reads, and how many are events
unfoldable pub prime : EventLog → List Line → EventLog × ℕ
unfolding push
prime l [] = (l, 0)
prime l (junk stored read ∷ lines) = prime l lines
prime l (event_line ev ∷ lines) =
    let (l', n) = prime (record l { buf = push l.capacity l.buf ev }) lines in (l', n + 1)

-- the file that it reads: the single one, or that of today
unfoldable pub prime_from_jsonl : EventLog → ℕ → EventLog × ℕ
unfolding prime day_lines
prime_from_jsonl l today = prime l (if l.partition then day_lines l.days today else l.history)

-- `clear`, if every file can be unlinked
unfoldable pub clear_log : ℕ → EventLog → EventLog
unfolding clear_index
clear_log now l =
    let index : Option EventIndex = elim l.index [
      | none ↦ none
      | some x ↦ some (clear_index now x)
    ] in
    if l.partition
    then record l { buf = []; writer = false; current_day = none; days = []; index = index }
    else record l {
      buf = [];
      writer = l.has_path;
      history = if l.has_path then [] else l.history;
      index = index;
    }

-- `close`
unfoldable pub close_log : ℕ → EventLog → EventLog
close_log now l = record l { writer = false; index = none }

-- `fsync_to_disk`, and whether it succeeds
unfoldable pub fsync_to_disk : Bool → EventLog → EventLog × Bool
fsync_to_disk syncs l =
    if l.writer
    then (if syncs then (l, true) else (record l { write_errors = l.write_errors + 1 }, false))
    else (l, false)
