-- ===== src/Parser/Order.antt =====
-- backend/parser.py: the times of the events of a run of lines.
use dmr_decrep_shahar.Prelude.{
  ℕ, ◌≤◌, String, Option, none, some, List, [], ◌∷◌, ◌≡◌, subst, arith, inl, inr, Option-cases, All,
  All-intro, All-Member,
}
use dmr_decrep_shahar.Sort.{Ordered}
use dmr_decrep_shahar.Models.{Event}
use dmr_decrep_shahar.Parser.Handlers.{DsdLogParser}
use dmr_decrep_shahar.Parser.Line.{now_of, clean_line, parse_line, parse_lines, with_event}
use dmr_decrep_shahar.Parser.Cases.{Reports, parse_line-Reports}

-- in order, and none before a time
abbrev pub InOrder : ℕ → List Event → Type 0
InOrder t events =
    Ordered (λ a b. a.timestamp ≤ b.timestamp) events × All (λ ev. t ≤ ev.timestamp) events

InOrder-later : (t u : ℕ) (events : List Event) → t ≤ u → InOrder u events → InOrder t events
InOrder-later t u events le (o, a) = (
  o,
  All-intro _ events (λ ev m. omega (arith, le, All-Member (λ ev. u ≤ ev.timestamp) events ev a m)),
)

InOrder-cons :
    (t u : ℕ) (ev : Event) (events : List Event)
    → t ≤ u
    → ev.timestamp ≡ u
    → InOrder u events
    → InOrder t (ev ∷ events)
InOrder-cons t u ev events le stamp h =
    let later = InOrder-later ev.timestamp u events (omega (arith, stamp)) h in
    ((later.1, h.0), (omega (arith, stamp, le), (InOrder-later t u events le h).1))

InOrder-with_event :
    (p p' : DsdLogParser) (wall t : ℕ) (line : String) (o : Option Event) (events : List Event)
    → p.last_timestamp ≡ some t
    → Reports p wall line (p', o)
    → ((u : ℕ) → p'.last_timestamp ≡ some u → InOrder u events)
    → InOrder t (with_event o events)
unfolding with_event now_of
InOrder-with_event p p' wall t line none events e (later, same) h =
    let (u, at, le) = rw e at later in InOrder-later t u events le (h u at)
InOrder-with_event p p' wall t line (some ev) events e (later, same, carries, stamp, raw) h =
    let (u, at, le) = rw e at later in
    let stamped : ev.timestamp ≡ u = rw (at, now_of) at stamp in
    InOrder-cons t u ev events le stamped (h u at)

-- Once a line has told a time `t`, the events of the lines that follow, if all of them are read, are in
-- the order of their times, and none is before `t`.
pub parse_lines-InOrder :
    (p p' : DsdLogParser) (t : ℕ) (lines : List (ℕ × String)) (events : List Event)
    → p.last_timestamp ≡ some t
    → parse_lines p lines ≡ some (p', events)
    → InOrder t events
unfolding parse_lines
parse_lines-InOrder p p' t [] events e h =
    let found : [] ≡ events = ground arith in subst (InOrder t) found (tt, tt)
parse_lines-InOrder p p' t ((wall, raw) ∷ lines) events e h =
    elim (Option-cases (parse_line p wall raw)) [
      | inl n ↦ cc (rw (n, parse_lines) at h)
      | inr ((p1, o), n) ↦ elim (Option-cases (parse_lines p1 lines)) [
        | inl n' ↦ cc (rw (n, n', parse_lines) at h)
        | inr ((p2, evs), n') ↦
            let h' = rw (n, n', parse_lines) at h in
            let found : with_event o evs ≡ events = ground (arith, h') in
            subst (InOrder t) found (
              InOrder-with_event p p1 wall t (clean_line raw) o evs e
                (parse_line-Reports p wall raw (p1, o) n)
                (λ u at. parse_lines-InOrder p1 p2 u lines evs at n'))
      ]
    ]
