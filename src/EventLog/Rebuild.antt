-- ===== src/EventLog/Rebuild.antt =====
-- backend/event_index.py: `rebuild_from_jsonl`, the index made again of the log's files, in batches.
use dmr_decrep_shahar.Prelude.{
  nat_key, ℕ, false, List, [], ◌∷◌, ◌++◌, map, length, leb, if◌then◌else◌, append-nil, append_assoc,
  ◌≡◌, sym, ap, ◌∙◌, inl, inr, Bool-cases,
}
use dmr_decrep_shahar.Sort.{sorted}
use dmr_decrep_shahar.Models.{Event}
use dmr_decrep_shahar.EventIndex.{EventIndex, Row, extract_columns}
use dmr_decrep_shahar.EventLog.{EventLog, Line, event_line, junk}

abbrev pub rebuild_batch : ℕ
rebuild_batch = 5_000

-- the loop over the lines, with the batch and the rows that are inserted so far
unfoldable pub rebuild_lines : List Line → List Row → List Row → List Row
unfolding extract_columns
rebuild_lines [] batch inserted = inserted ++ batch
rebuild_lines (junk stored read ∷ lines) batch inserted = rebuild_lines lines batch inserted
rebuild_lines (event_line ev ∷ lines) batch inserted =
    let full = batch ++ extract_columns ev ∷ [] in
    let emptied = rebuild_lines lines [] (inserted ++ (batch ++ extract_columns ev ∷ [])) in
    let rest = rebuild_lines lines (batch ++ extract_columns ev ∷ []) inserted in
    if leb rebuild_batch (length full) then emptied else rest

-- the lines of the sources, in the order of their names
unfoldable pub source_lines : List (ℕ × List Line) → List Line
source_lines [] = []
source_lines ((day, lines) ∷ files) = lines ++ source_lines files

unfoldable pub history_lines : EventLog → List Line
unfolding source_lines sorted
history_lines l =
    if l.partition then source_lines (sorted (λ a b. leb a.0 b.0) l.days) else l.history

-- `rebuild_from_jsonl`, and the number of rows
unfoldable pub rebuild_from_jsonl : ℕ → EventIndex → EventLog → EventIndex × ℕ
unfolding rebuild_lines history_lines
rebuild_from_jsonl now x l =
    let rows = rebuild_lines (history_lines l) [] [] in
    (record x { committed = rows; pending = []; last_commit = now; timer = false }, length rows)

-- the events of some lines
abbrev pub events_of : List Line → List Event
events_of [] = []
events_of (junk stored read ∷ lines) = events_of lines
events_of (event_line ev ∷ lines) = ev ∷ events_of lines

-- The batches leave the rows of all events of the lines, in their order, after those that were there.
pub rebuild_lines-events_of :
    (lines : List Line) (batch inserted : List Row)
    → rebuild_lines lines batch inserted
      ≡ inserted ++ (batch ++ map extract_columns (events_of lines))
unfolding rebuild_lines
rebuild_lines-events_of [] batch inserted = ap (◌++◌ inserted) (sym (append-nil batch))
rebuild_lines-events_of (junk stored read ∷ lines) batch inserted =
    rebuild_lines-events_of lines batch inserted
rebuild_lines-events_of (event_line ev ∷ lines) batch inserted =
    let row = extract_columns ev in
    let more = map extract_columns (events_of lines) in
    let moved : (batch ++ row ∷ []) ++ more ≡ batch ++ row ∷ more =
      append_assoc batch (row ∷ []) more in
    elim (Bool-cases (leb rebuild_batch (length (batch ++ row ∷ [])))) [
      | inl b ↦ rw b (
          rebuild_lines-events_of lines [] (inserted ++ (batch ++ row ∷ []))
          ∙ append_assoc inserted (batch ++ row ∷ []) more
          ∙ ap (◌++◌ inserted) moved)
      | inr b ↦
          rw b
            (rebuild_lines-events_of lines (batch ++ row ∷ []) inserted ∙ ap (◌++◌ inserted) moved)
    ]
