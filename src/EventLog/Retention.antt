-- ===== src/EventLog/Retention.antt =====
-- backend/event_log.py: retention, `_unlink_day_files_before`, `prune_days_older_than` and
-- `prune_older_than`. The rewrite of a single file has two passes: the first reads a snapshot without the
-- lock, and events may be appended before each step. What `_unlink_day_files_before` frees is counted in
-- lines, the sizes in the rewrite in bytes.
use dmr_decrep_shahar.Prelude.{
  nat_key, ℕ, ◌+◌, Bool, not, ◌&&◌, Option, none, some, List, [], ◌∷◌, ◌++◌, length, filter, ◌-◌,
  ltb, if◌then◌else◌,
}
use dmr_decrep_shahar.Models.{Event}
use dmr_decrep_shahar.EventIndex.{
  EventIndex, day_of, prune_index_days, prune_index_older_than, vacuum, chunk_size,
}
use dmr_decrep_shahar.EventLog.{EventLog, Line, event_line, junk, is_current, append_event, Outcome}

-- the files that go: not that of the open writer
unfoldable pub is_old : EventLog → ℕ → (ℕ → Bool) → ℕ × List Line → Bool
unfolding is_current
is_old l cutoff unlinks (day, lines) =
    ltb day cutoff && not (is_current l.current_day day) && unlinks day

unfoldable pub total_size : List (ℕ × List Line) → ℕ
total_size [] = 0
total_size ((day, lines) ∷ files) = length lines + total_size files

-- `_unlink_day_files_before`, with the numbers of files and of lines that are gone
unfoldable pub unlink_day_files_before : (ℕ → Bool) → EventLog → ℕ → EventLog × ℕ × ℕ
unfolding is_old total_size
unlink_day_files_before unlinks l cutoff =
    let gone = filter (is_old l cutoff unlinks) l.days in
    if l.partition
    then (
      record l { days = filter (λ f. not (is_old l cutoff unlinks f)) l.days },
      length gone,
      total_size gone,
    )
    else (l, 0, 0)

-- what `prune_older_than` or `prune_days_older_than` of the index makes of the log's: `none` is an
-- exception, which is only reported
unfoldable pub prune_index : ℕ → (EventIndex → Option (EventIndex × ℕ)) → EventLog → EventLog × ℕ
unfolding vacuum
prune_index now prune l = elim l.index [
  | none ↦ (l, 0)
  | some x ↦ elim (prune x) [
    | none ↦ (l, 0)
    | some (x', n) ↦ (record l { index = some (if ltb 0 n then vacuum now x' else x') }, n)
  ]
]

-- `prune_days_older_than`, with the numbers of files, lines and rows that are gone
unfoldable pub prune_days_older_than : ℕ → (ℕ → Bool) → EventLog → ℕ → EventLog × ℕ × ℕ × ℕ
unfolding unlink_day_files_before prune_index prune_index_days
prune_days_older_than now unlinks l cutoff =
    let (l', files, lines) = unlink_day_files_before unlinks l cutoff in
    let (l'', deleted) = prune_index now (prune_index_days cutoff chunk_size now) l' in
    (l'', files, lines, deleted)

-- the bytes of a line in the file, with the end of the line; an event has those of its JSON
unfoldable pub stored_size : (Event → ℕ) → Line → ℕ
stored_size event_bytes (event_line ev) = event_bytes ev + 1
stored_size event_bytes (junk stored read) = stored + 1

-- `len(line.encode(...))` of a line that is read with `errors="replace"`
unfoldable pub read_size : (Event → ℕ) → Line → ℕ
read_size event_bytes (event_line ev) = event_bytes ev + 1
read_size event_bytes (junk stored read) = read + 1

-- `stat().st_size`
unfoldable pub file_size : (Event → ℕ) → List Line → ℕ
unfolding stored_size
file_size event_bytes [] = 0
file_size event_bytes (line ∷ lines) = stored_size event_bytes line + file_size event_bytes lines

-- the loop of the first pass, with `bytes_read`: the lines that stay
unfoldable pub survivors : (Event → ℕ) → ℕ → ℕ → ℕ → List Line → List Line
unfolding read_size
survivors event_bytes cutoff snapshot_size bytes_read [] = []
survivors event_bytes cutoff snapshot_size bytes_read (line ∷ lines) =
    let read = bytes_read + read_size event_bytes line in
    let rest =
      survivors event_bytes cutoff snapshot_size (bytes_read + read_size event_bytes line) lines in
    if ltb snapshot_size read then [] else elim line [
      | junk stored length ↦ rest
      | event_line ev ↦ if ltb ev.timestamp cutoff then rest else event_line ev ∷ rest
    ]

-- what succeeds in the two passes
pub record SwapOutcome : Type 0 where
  pub reads_file : Bool
  pub reads_tail : Bool
  pub renames : Bool
  pub reopens : Bool

-- the index
unfoldable pub start_prune : ℕ → EventLog → ℕ → EventLog
unfolding prune_index prune_index_older_than
start_prune now l cutoff = (prune_index now (prune_index_older_than cutoff chunk_size now) l).0

-- `seek(n)` at the end of a line, and `read`
unfoldable pub lines_after : (Event → ℕ) → ℕ → List Line → List Line
unfolding stored_size
lines_after event_bytes n [] = []
lines_after event_bytes n (line ∷ lines) =
    let rest = lines_after event_bytes (n - stored_size event_bytes line) lines in
    if ltb 0 n then rest else line ∷ lines

-- the second pass, under the lock: the tail that was written meanwhile, and the swap of the files
unfoldable pub finish_prune : (Event → ℕ) → SwapOutcome → ℕ → List Line → EventLog → EventLog
unfolding lines_after
finish_prune event_bytes o snapshot_size new_file l =
    let tail = if o.reads_tail then lines_after event_bytes snapshot_size l.history else [] in
    record l { history = if o.renames then new_file ++ tail else l.history; writer = o.reopens }

-- events in turn, each with the time and what succeeds
unfoldable pub append_all : EventLog → List (ℕ × Outcome × Event) → EventLog
unfolding append_event
append_all l [] = l
append_all l ((now, o, ev) ∷ more) = append_all (append_event now o l ev) more

-- the events that are appended where the lock is free: before the size of the file is taken, before the
-- first pass reads it, and before the second pass
pub record Meanwhile : Type 0 where
  pub before_size : List (ℕ × Outcome × Event)
  pub before_read : List (ℕ × Outcome × Event)
  pub before_swap : List (ℕ × Outcome × Event)

-- `prune_older_than` of a single file that exists
unfoldable pub prune_older_than :
    ℕ → (Event → ℕ) → SwapOutcome → EventLog → ℕ → Meanwhile → EventLog
unfolding start_prune append_all finish_prune file_size survivors
prune_older_than now event_bytes o l cutoff w =
    let sized = append_all (start_prune now l cutoff) w.before_size in
    let snapshot_size = file_size event_bytes sized.history in
    let opened = append_all sized w.before_read in
    let new_file = survivors event_bytes cutoff snapshot_size 0 opened.history in
    let locked = append_all opened w.before_swap in
    if o.reads_file then finish_prune event_bytes o snapshot_size new_file locked else locked

-- `prune_older_than` of a partitioned log: only whole files go
unfoldable pub prune_partitions_older_than : ℕ → (ℕ → Bool) → EventLog → ℕ → EventLog × ℕ
unfolding prune_index prune_index_older_than unlink_day_files_before day_of
prune_partitions_older_than now unlinks l cutoff =
    let l' = (prune_index now (prune_index_older_than cutoff chunk_size now) l).0 in
    let (l'', files, lines) = unlink_day_files_before unlinks l' (day_of cutoff) in (l'', lines)
