-- ===== src/EventLog/Journal.antt =====
-- backend/event_log.py: operations on the log in turn, and one list of events that they stand for.
use dmr_decrep_shahar.Prelude.{
  nat_key, ℕ, ◌==◌, ltb, Bool, true, not, ◌&&◌, Option, none, some, List, [], ◌∷◌, ◌++◌, map,
  filter, ite, if◌then◌else◌, ◌≡◌, refl, ap, ◌∙◌, arith, inl, inr, Bool-cases, Distinct, ℕ_discrete,
}
use dmr_decrep_shahar.Dict.{Dict, keys, put}
use dmr_decrep_shahar.Dict.Laws.{get-put}
use dmr_decrep_shahar.Models.{Event}
use dmr_decrep_shahar.EventIndex.{day_of}
use dmr_decrep_shahar.EventLog.{
  EventLog, Line, event_line, append_event, is_current, day_lines, clear_log, all_well,
}
use dmr_decrep_shahar.EventLog.Retention.{prune_days_older_than}

-- an operation on the log, with its time
pub data Op : Type 0 where
  append_op : ℕ → Event → Op
  prune_op : ℕ → ℕ → Op
  clear_op : ℕ → Op

-- the operation, if every call of the file system succeeds
unfoldable pub run_op : EventLog → Op → EventLog
unfolding append_event prune_days_older_than clear_log
run_op l (append_op now ev) = append_event now all_well l ev
run_op l (prune_op now cutoff) = (prune_days_older_than now (λ day. true) l cutoff).0
run_op l (clear_op now) = clear_log now l

unfoldable pub run_ops : EventLog → List Op → EventLog
unfolding run_op
run_ops l [] = l
run_ops l (op ∷ ops) = run_ops (run_op l op) ops

-- the log as one list of events, with the day that is written
pub record Journal : Type 0 where
  pub events : List Event
  pub current : Option ℕ

abbrev pub on_day : ℕ → Event → Bool
on_day day ev = day_of ev.timestamp == day

-- the days that a cutoff drops
abbrev pub drops : Option ℕ → ℕ → ℕ → Bool
drops current cutoff day = ltb day cutoff && not (is_current current day)

unfoldable pub journal_op : Journal → Op → Journal
unfolding is_current day_of
journal_op j (append_op now ev) = record {
  events = j.events ++ ev ∷ [];
  current = some (day_of ev.timestamp);
}
journal_op j (prune_op now cutoff) = record j {
  events = filter (λ ev. not (drops j.current cutoff (day_of ev.timestamp))) j.events;
}
journal_op j (clear_op now) = record { events = []; current = none }

unfoldable pub journal_ops : Journal → List Op → Journal
unfolding journal_op
journal_ops j [] = j
journal_ops j (op ∷ ops) = journal_ops (journal_op j op) ops

abbrev pub lines_on : ℕ → List Event → List Line
lines_on day events = map event_line (filter (on_day day) events)

-- the log is partitioned, and its files are those of the journal
abbrev pub Abstracts : EventLog → Journal → Type 0
Abstracts l j =
    (l.partition ≡ true)
    × (l.current_day ≡ j.current)
    × Distinct (keys l.days)
    × ((day : ℕ) → day_lines l.days day ≡ lines_on day j.events)

pub day_lines-put :
    (days : Dict ℕ (List Line)) (x day : ℕ) (v : List Line)
    → day_lines (put days x v) day ≡ ite (ℕ_discrete x day) v (day_lines days day)
unfolding day_lines
day_lines-put days x day v = elim (ℕ_discrete x day) [
  | yes e ↦ ground (arith, get-put days x day v)
  | no n ↦ ground (arith, get-put days x day v)
]

pub lines_on-append :
    (day : ℕ) (xs : List Event) (ev : Event)
    → lines_on day (xs ++ ev ∷ [])
      ≡ (if on_day day ev then lines_on day xs ++ event_line ev ∷ [] else lines_on day xs)
lines_on-append day [] ev = elim (Bool-cases (on_day day ev)) [
  | inl b ↦ rw b refl
  | inr b ↦ rw b refl
]
lines_on-append day (x ∷ xs) ev = elim (Bool-cases (on_day day x)) [
  | inl b ↦ ground (arith, lines_on-append day xs ev)
  | inr b ↦ ground (arith, lines_on-append day xs ev)
]

pub lines_on-drops :
    (current : Option ℕ) (cutoff day : ℕ) (xs : List Event)
    → lines_on day (filter (λ ev. not (drops current cutoff (day_of ev.timestamp))) xs)
      ≡ (if not (drops current cutoff day) then lines_on day xs else [])
lines_on-drops current cutoff day [] = elim (Bool-cases (drops current cutoff day)) [
  | inl b ↦ rw b refl
  | inr b ↦ rw b refl
]
lines_on-drops current cutoff day (x ∷ xs) =
    let ih = lines_on-drops current cutoff day xs in
    elim (Bool-cases (on_day day x)) [
      | inl b ↦
          let e : day_of x.timestamp ≡ day = ground arith in
          let same : drops current cutoff (day_of x.timestamp) ≡ drops current cutoff day =
            ap (drops current cutoff) e in
          elim (Bool-cases (drops current cutoff day)) [
            | inl c ↦ rw (same ∙ c, c) (rw c at ih)
            | inr c ↦ rw (same ∙ c, c, b) (ap (◌∷◌ (event_line x)) (rw c at ih))
          ]
      | inr b ↦ elim (Bool-cases (drops current cutoff (day_of x.timestamp))) [
        | inl c ↦ rw (c, b) ih
        | inr c ↦ rw (c, b) ih
      ]
    ]
