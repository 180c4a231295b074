-- ===== src/EventLog/Days.antt =====
-- backend/event_log.py: the files of the days, against one list of events.
use dmr_decrep_shahar.Prelude.{
  nat_key, ℕ, true, not, Option, none, List, [], ◌∷◌, filter, if◌then◌else◌, ◌≡◌, refl, sym, ap,
  subst, ◌∙◌, arith, inl, inr, Option-cases, Distinct,
}
use dmr_decrep_shahar.Dict.{keys, get}
use dmr_decrep_shahar.Dict.Filter.{get-filter, filter-Distinct}
use dmr_decrep_shahar.EventIndex.{EventIndex, prune_index_days, chunk_size}
use dmr_decrep_shahar.EventLog.{EventLog, new_log, day_lines, clear_log}
use dmr_decrep_shahar.EventLog.Retention.{
  is_old, unlink_day_files_before, prune_index, prune_days_older_than,
}
use dmr_decrep_shahar.EventLog.Journal.{
  Op, append_op, prune_op, clear_op, run_op, run_ops, Journal, drops, journal_op, journal_ops,
  lines_on, Abstracts, lines_on-drops,
}
use dmr_decrep_shahar.EventLog.Writing.{append_event-Abstracts}

prune_index-days :
    (now : ℕ) (prune : EventIndex → Option (EventIndex × ℕ)) (l : EventLog)
    → ((prune_index now prune l).0.days ≡ l.days)
      × ((prune_index now prune l).0.partition ≡ l.partition)
      × ((prune_index now prune l).0.current_day ≡ l.current_day)
unfolding prune_index
prune_index-days now prune l = ground arith

-- the files that are left
unlinked-lines :
    (l : EventLog) (cutoff day : ℕ)
    → Distinct (keys l.days)
    → day_lines (filter (λ f. not (is_old l cutoff (λ d. true) f)) l.days) day
      ≡ (if not (drops l.current_day cutoff day) then day_lines l.days day else [])
unfolding day_lines is_old
unlinked-lines l cutoff day u =
    let found = get-filter (λ f. not (is_old l cutoff (λ d. true) f)) l.days day u in
    elim (Option-cases (get l.days day)) [
      | inl e ↦ ground (arith, found)
      | inr (v, e) ↦ ground (arith, found)
    ]

-- the log when the old files are gone
abbrev unlinked : EventLog → ℕ → EventLog
unlinked l cutoff = record l { days = filter (λ f. not (is_old l cutoff (λ d. true) f)) l.days }

unlink_day_files_before-partitioned :
    (l : EventLog) (cutoff : ℕ)
    → l.partition ≡ true
    → (unlink_day_files_before (λ d. true) l cutoff).0 ≡ unlinked l cutoff
unfolding unlink_day_files_before
unlink_day_files_before-partitioned l cutoff p = ground arith

prune_days-steps :
    (now cutoff : ℕ) (l : EventLog)
    → (prune_days_older_than now (λ d. true) l cutoff).0
      ≡ (prune_index now
          (prune_index_days cutoff chunk_size now)
          (unlink_day_files_before (λ d. true) l cutoff).0).0
unfolding prune_days_older_than
prune_days-steps now cutoff l = refl

prune_days-Abstracts :
    (now cutoff : ℕ) (l : EventLog) (j : Journal)
    → Abstracts l j
    → Abstracts (run_op l (prune_op now cutoff)) (journal_op j (prune_op now cutoff))
unfolding run_op journal_op
prune_days-Abstracts now cutoff l j (p, c, u, h) =
    let prune = prune_index_days cutoff chunk_size now in
    let whole : (prune_days_older_than now (λ d. true) l cutoff).0
        ≡ (prune_index now prune (unlinked l cutoff)).0 =
      prune_days-steps now cutoff l
      ∙ ap (λ x. (prune_index now prune x).0) (unlink_day_files_before-partitioned l cutoff p) in
    let (di, pi, ci) = prune_index-days now prune (unlinked l cutoff) in
    let file : (day : ℕ)
        → day_lines (unlinked l cutoff).days day
          ≡ lines_on day (journal_op j (prune_op now cutoff)).events =
      λ day.
        unlinked-lines l cutoff day u
        ∙ ap (λ xs. if not (drops l.current_day cutoff day) then xs else []) (h day)
        ∙ ap (λ current. if not (drops current cutoff day) then lines_on day j.events else []) c
        ∙ sym (lines_on-drops j.current cutoff day j.events) in
    let done : Abstracts (prune_index now prune (unlinked l cutoff)).0
        (journal_op j (prune_op now cutoff)) =
      (
        pi ∙ p,
        ci ∙ c,
        rw di (filter-Distinct (λ f. not (is_old l cutoff (λ d. true) f)) l.days u),
        λ day. ap (λ x. day_lines x day) di ∙ file day,
      ) in
    subst (λ x. Abstracts x (journal_op j (prune_op now cutoff))) (sym whole) done

clear_log-Abstracts :
    (now : ℕ) (l : EventLog) (j : Journal)
    → Abstracts l j
    → Abstracts (run_op l (clear_op now)) (journal_op j (clear_op now))
unfolding run_op journal_op clear_log day_lines
clear_log-Abstracts now l j (p, c, u, h) = rw p (refl, refl, tt, λ day. refl)

run_op-Abstracts :
    (l : EventLog) (j : Journal) (op : Op)
    → Abstracts l j
    → Abstracts (run_op l op) (journal_op j op)
run_op-Abstracts l j (append_op now ev) a = append_event-Abstracts now l j ev a
run_op-Abstracts l j (prune_op now cutoff) a = prune_days-Abstracts now cutoff l j a
run_op-Abstracts l j (clear_op now) a = clear_log-Abstracts now l j a

run_ops-Abstracts :
    (l : EventLog) (j : Journal) (ops : List Op)
    → Abstracts l j
    → Abstracts (run_ops l ops) (journal_ops j ops)
unfolding run_ops journal_ops
run_ops-Abstracts l j [] a = a
run_ops-Abstracts l j (op ∷ ops) a =
    run_ops-Abstracts (run_op l op) (journal_op j op) ops (run_op-Abstracts l j op a)

abbrev pub no_journal : Journal
no_journal = record { events = []; current = none }

-- While every call of the file system succeeds, a partitioned log refines one list of events: after any
-- sequence of appends, prunings by day and clearings, in any order of the times, the file of each day
-- holds exactly that list's events of the day, in their order. An append adds an event at the end of
-- the list, a pruning takes out the events of the days before its cutoff but for the day of the
-- last append, and a clearing takes out all.
pub run_ops-journal_ops :
    (capacity day : ℕ) (index : Option EventIndex) (ops : List Op)
    → day_lines (run_ops (new_log capacity true true index) ops).days day
      ≡ lines_on day (journal_ops no_journal ops).events
unfolding new_log day_lines
run_ops-journal_ops capacity day index ops =
    (run_ops-Abstracts (new_log capacity true true index) no_journal ops
        (refl, refl, tt, λ d. refl)).3
      day
