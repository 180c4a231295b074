-- ===== src/EventLog/Appending.antt =====
-- backend/event_log.py: events that are appended to a single file, whatever it holds.
use dmr_decrep_shahar.Prelude.{
  nat_key, ℕ, Bool, true, false, List, [], ◌∷◌, ◌++◌, append-nil, append_assoc, All, All-append,
  if◌then◌else◌, ◌≡◌, refl, sym, ap, subst, ◌∙◌, arith, inl, inr, Bool-cases, Option-cases,
}
use dmr_decrep_shahar.Models.{Event}
use dmr_decrep_shahar.EventIndex.{day_of}
use dmr_decrep_shahar.EventLog.{
  EventLog, Line, push, ready_writer, ensure_day_writer, event_line, append_event, write_event,
  write_line, index_event, Outcome,
}
use dmr_decrep_shahar.EventLog.Retention.{append_all}
use dmr_decrep_shahar.EventLog.Survivors.{ReadsBack}

-- the lines that an event leaves in the file
abbrev written : Outcome → Event → List Line
written o ev = if o.writes then event_line ev ∷ [] else []

abbrev pub all_written : List (ℕ × Outcome × Event) → List Line
all_written [] = []
all_written ((now, o, ev) ∷ more) = written o ev ++ all_written more

-- the log with another file
abbrev pub with_file : EventLog → List Line → EventLog
with_file l h = record l { history = h }

-- a log with one file that is open
abbrev pub Writes : EventLog → Type 0
Writes l = (l.partition ≡ false) × (l.writer ≡ true)

write_event-file :
    (o : Outcome) (l : EventLog) (ev : Event) (h : List Line)
    → Writes l
    → write_event o.writes (with_file l h) ev
      ≡ with_file (write_event o.writes l ev) (h ++ written o ev)
unfolding write_event write_line
write_event-file o l ev h (single, opened) = elim (Bool-cases o.writes) [
  | inl b ↦ rw (b, opened, single) refl
  | inr b ↦ rw (b, opened, append-nil h) refl
]

index_event-file :
    (now : ℕ) (indexes : Bool) (l : EventLog) (ev : Event) (h : List Line)
    → index_event now indexes (with_file l h) ev ≡ with_file (index_event now indexes l ev) h
unfolding index_event
index_event-file now true l ev h = elim (Option-cases l.index) [
  | inl e ↦ rw e refl
  | inr (x, e) ↦ rw e refl
]
index_event-file now false l ev h = elim (Option-cases l.index) [
  | inl e ↦ rw e refl
  | inr (x, e) ↦ rw e refl
]

ready_writer-single :
    (opens : Bool) (l : EventLog) (ev : Event) → l.partition ≡ false → ready_writer opens l ev ≡ l
unfolding ready_writer
ready_writer-single opens l ev single =
    subst (λ b. (if b then ensure_day_writer opens l (day_of ev.timestamp) else l) ≡ l) (sym single)
      refl

-- the log when an event is in the buffer
abbrev pushed : EventLog → Event → EventLog
pushed l ev = record l { buf = push l.capacity l.buf ev }

append_event-steps :
    (now : ℕ) (o : Outcome) (l : EventLog) (ev : Event)
    → append_event now o l ev
      ≡ index_event now o.indexes
          (write_event o.writes (ready_writer o.opens (pushed l ev) ev) ev)
          ev
unfolding append_event
append_event-steps now o l ev = refl

append_event-single :
    (now : ℕ) (o : Outcome) (l : EventLog) (ev : Event)
    → l.partition ≡ false
    → append_event now o l ev ≡ index_event now o.indexes (write_event o.writes (pushed l ev) ev) ev
append_event-single now o l ev single =
    append_event-steps now o l ev
    ∙ ap (λ x. index_event now o.indexes (write_event o.writes x ev) ev)
        (ready_writer-single o.opens (pushed l ev) ev single)

append_event-file :
    (now : ℕ) (o : Outcome) (l : EventLog) (ev : Event) (h : List Line)
    → Writes l
    → append_event now o (with_file l h) ev
      ≡ with_file (append_event now o l ev) (h ++ written o ev)
append_event-file now o l ev h (single, opened) =
    append_event-single now o (with_file l h) ev single
    ∙ ap (λ x. index_event now o.indexes x ev)
        (write_event-file o (pushed l ev) ev h (single, opened))
    ∙ index_event-file now o.indexes (write_event o.writes (pushed l ev) ev) ev (h ++ written o ev)
    ∙ ap (λ x. with_file x (h ++ written o ev)) (sym (append_event-single now o l ev single))

pub append_event-Writes :
    (now : ℕ) (o : Outcome) (l : EventLog) (ev : Event)
    → Writes l
    → Writes (append_event now o l ev)
unfolding append_event write_event write_line index_event
append_event-Writes now o l ev (single, opened) = ground arith

pub append_all-Writes :
    (l : EventLog) (evs : List (ℕ × Outcome × Event)) → Writes l → Writes (append_all l evs)
unfolding append_all
append_all-Writes l [] w = w
append_all-Writes l ((now, o, ev) ∷ more) w =
    append_all-Writes (append_event now o l ev) more (append_event-Writes now o l ev w)

pub append_all-file :
    (l : EventLog) (evs : List (ℕ × Outcome × Event)) (h : List Line)
    → Writes l
    → append_all (with_file l h) evs ≡ with_file (append_all l evs) (h ++ all_written evs)
unfolding append_all
append_all-file l [] h w = ap (with_file l) (sym (append-nil h))
append_all-file l ((now, o, ev) ∷ more) h w =
    ap (λ x. append_all x more) (append_event-file now o l ev h w)
    ∙ append_all-file (append_event now o l ev) more (h ++ written o ev)
        (append_event-Writes now o l ev w)
    ∙ ap (with_file (append_all (append_event now o l ev) more))
        (append_assoc h (written o ev) (all_written more))

pub append_all-history :
    (l : EventLog) (evs : List (ℕ × Outcome × Event))
    → Writes l
    → (append_all l evs).history ≡ l.history ++ all_written evs
append_all-history l evs w = ap (λ x. x.history) (append_all-file l evs l.history w)

pub append_all-append :
    (l : EventLog) (evs more : List (ℕ × Outcome × Event))
    → append_all (append_all l evs) more ≡ append_all l (evs ++ more)
unfolding append_all
append_all-append l [] more = refl
append_all-append l ((now, o, ev) ∷ evs) more = append_all-append (append_event now o l ev) evs more

written-ReadsBack : (o : Outcome) (ev : Event) → All ReadsBack (written o ev)
written-ReadsBack o ev = elim (Bool-cases o.writes) [ inl b ↦ rw b (tt, tt) | inr b ↦ rw b tt ]

all_written-ReadsBack : (evs : List (ℕ × Outcome × Event)) → All ReadsBack (all_written evs)
all_written-ReadsBack [] = tt
all_written-ReadsBack ((now, o, ev) ∷ more) =
    All-append ReadsBack (written o ev) (all_written more) (written-ReadsBack o ev)
      (all_written-ReadsBack more)

pub append_all-ReadsBack :
    (l : EventLog) (evs : List (ℕ × Outcome × Event))
    → Writes l
    → All ReadsBack l.history
    → All ReadsBack (append_all l evs).history
append_all-ReadsBack l evs w r =
    rw (append_all-history l evs w)
      (All-append ReadsBack l.history (all_written evs) r (all_written-ReadsBack evs))
