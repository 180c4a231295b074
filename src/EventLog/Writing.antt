-- ===== src/EventLog/Writing.antt =====
-- backend/event_log.py: what an append makes of the files of the days.
use dmr_decrep_shahar.Prelude.{
  nat_key, ℕ, ◌==◌, Bool, true, false, ◌&&◌, Option, none, some, List, [], ◌∷◌, ◌++◌, if◌then◌else◌,
  ◌≡◌, refl, sym, ap, subst, ◌∙◌, arith, inl, inr, Option-cases, Distinct, ℕ_discrete, if_pos,
  if_neg,
}
use dmr_decrep_shahar.Dict.{Dict, keys, put}
use dmr_decrep_shahar.Dict.Laws.{put-Distinct}
use dmr_decrep_shahar.Models.{Event}
use dmr_decrep_shahar.EventIndex.{day_of}
use dmr_decrep_shahar.EventLog.{
  EventLog, Line, event_line, append_event, ready_writer, ensure_day_writer, write_event,
  write_line, index_event, push, is_current, day_lines, all_well,
}
use dmr_decrep_shahar.EventLog.Journal.{
  append_op, run_op, Journal, journal_op, lines_on, Abstracts, day_lines-put, lines_on-append,
}

-- what a writer that is ready has
abbrev Ready : EventLog → EventLog → ℕ → Type 0
Ready l r day =
    (r.partition ≡ true)
    × (r.writer ≡ true)
    × (r.current_day ≡ some day)
    × Distinct (keys r.days)
    × ((d : ℕ) → day_lines r.days d ≡ day_lines l.days d)

day_lines-put_self :
    (days : Dict ℕ (List Line)) (x day : ℕ)
    → day_lines (put days x (day_lines days x)) day ≡ day_lines days day
day_lines-put_self days x day = elim (ℕ_discrete x day) [
  | yes e ↦
      day_lines-put days x day (day_lines days x)
      ∙ if_pos (ℕ_discrete x day) e _ _
      ∙ ap (day_lines days) e
  | no n ↦ day_lines-put days x day (day_lines days x) ∙ if_neg (ℕ_discrete x day) n _ _
]

is_current-some :
    (current : Option ℕ) (day : ℕ) → is_current current day ≡ true → current ≡ some day
unfolding is_current
is_current-some none day h = cc
is_current-some (some d) day h = ground arith

-- the log when the file of a day is opened
abbrev opened : EventLog → ℕ → EventLog
opened l day = record l {
  writer = true;
  current_day = some day;
  days = put l.days day (day_lines l.days day);
}

ensure_day_writer_lem :
    (l : EventLog) (day : ℕ)
    → ensure_day_writer true l day
      ≡ (if l.writer && is_current l.current_day day then l else opened l day)
unfolding ensure_day_writer
ensure_day_writer_lem l day = refl

ready_writer-partitioned :
    (l : EventLog) (ev : Event)
    → l.partition ≡ true
    → ready_writer true l ev ≡ (
        if l.writer && is_current l.current_day (day_of ev.timestamp)
        then l
        else opened l (day_of ev.timestamp))
unfolding ready_writer
ready_writer-partitioned l ev p =
    let day = day_of ev.timestamp in
    subst (λ b. (if b then ensure_day_writer true l day else l) ≡ ensure_day_writer true l day)
      (sym p) refl
    ∙ ensure_day_writer_lem l day

opened-Ready :
    (l : EventLog) (day : ℕ) (b : Bool)
    → l.partition ≡ true
    → Distinct (keys l.days)
    → (l.writer && is_current l.current_day day) ≡ b
    → Ready l (if b then l else opened l day) day
opened-Ready l day true p u h =
    let both : (l.writer ≡ true) × (is_current l.current_day day ≡ true) = ground arith in
    (p, both.0, is_current-some l.current_day day both.1, u, λ d. refl)
opened-Ready l day false p u h =
    (p, refl, refl, put-Distinct l.days day (day_lines l.days day) u, day_lines-put_self l.days day)

ready_writer-Ready :
    (l : EventLog) (ev : Event)
    → l.partition ≡ true
    → Distinct (keys l.days)
    → Ready l (ready_writer true l ev) (day_of ev.timestamp)
ready_writer-Ready l ev p u =
    let day = day_of ev.timestamp in
    subst (λ r. Ready l r day) (sym (ready_writer-partitioned l ev p))
      (opened-Ready l day (l.writer && is_current l.current_day day) p u refl)

write_event-day :
    (r : EventLog) (ev : Event) (day : ℕ)
    → r.partition ≡ true
    → r.writer ≡ true
    → r.current_day ≡ some day
    → write_event true r ev
      ≡ record r { days = put r.days day (day_lines r.days day ++ event_line ev ∷ []) }
unfolding write_event write_line
write_event-day r ev day p w c = simp (w, p, c)

index_event-days :
    (now : ℕ) (l : EventLog) (ev : Event)
    → ((index_event now true l ev).days ≡ l.days)
      × ((index_event now true l ev).partition ≡ l.partition)
      × ((index_event now true l ev).current_day ≡ l.current_day)
unfolding index_event
index_event-days now l ev = elim (Option-cases l.index) [
  | inl e ↦ rw e (refl, refl, refl)
  | inr (x, e) ↦ rw e (refl, refl, refl)
]

append_event-steps :
    (now : ℕ) (l : EventLog) (ev : Event) (pushed : EventLog)
    → record l { buf = push l.capacity l.buf ev } ≡ pushed
    → append_event now all_well l ev
      ≡ index_event now true (write_event true (ready_writer true pushed ev) ev) ev
unfolding append_event
append_event-steps now l ev pushed e =
    ap (λ x. index_event now true (write_event true (ready_writer true x ev) ev) ev) e

-- a file with one more line
lines_on-put :
    (days : Dict ℕ (List Line)) (ev : Event) (events : List Event) (day : ℕ)
    → ((d : ℕ) → day_lines days d ≡ lines_on d events)
    → day_lines
        (put days
          (day_of ev.timestamp)
          (day_lines days (day_of ev.timestamp) ++ event_line ev ∷ []))
        day
      ≡ lines_on day (events ++ ev ∷ [])
lines_on-put days ev events day h =
    let here = day_of ev.timestamp in
    let v = day_lines days here ++ event_line ev ∷ [] in
    day_lines-put days here day v
    ∙ elim (ℕ_discrete here day) [
      | yes e ↦
          let b : (here == day) ≡ true = ground arith in
          rw (if_pos (ℕ_discrete here day) e, b)
            (ap (λ xs. xs ++ event_line ev ∷ []) (h here ∙ ap (λ d. lines_on d events) e))
      | no n ↦
          let b : (here == day) ≡ false = ground arith in
          rw (if_neg (ℕ_discrete here day) n, b) (h day)
    ]
    ∙ sym (lines_on-append day events ev)

pub append_event-Abstracts :
    (now : ℕ) (l : EventLog) (j : Journal) (ev : Event)
    → Abstracts l j
    → Abstracts (run_op l (append_op now ev)) (journal_op j (append_op now ev))
unfolding run_op journal_op
append_event-Abstracts now l j ev (p, c, u, h) =
    let pushed = record l { buf = push l.capacity l.buf ev } in
    let r = ready_writer true pushed ev in
    let day = day_of ev.timestamp in
    let (rp, rw', rc, ru, rh) = ready_writer-Ready pushed ev p u in
    let written = record r { days = put r.days day (day_lines r.days day ++ event_line ev ∷ []) } in
    let whole : append_event now all_well l ev ≡ index_event now true written ev =
      append_event-steps now l ev pushed refl
      ∙ ap (λ x. index_event now true x ev) (write_event-day r ev day rp rw' rc) in
    let (di, pi, ci) = index_event-days now written ev in
    let done : Abstracts (index_event now true written ev) (journal_op j (append_op now ev)) = (
      pi ∙ rp,
      ci ∙ rc,
      rw di (put-Distinct r.days day (day_lines r.days day ++ event_line ev ∷ []) ru),
      λ d. ap (λ x. day_lines x d) di ∙ lines_on-put r.days ev j.events d (λ d'. rh d' ∙ h d'),
    ) in
    subst (λ x. Abstracts x (journal_op j (append_op now ev))) (sym whole) done
