-- ===== src/Parser/Binding.antt =====
-- backend/parser.py: the radio that a position carries.
use dmr_decrep_shahar.Prelude.{
  ℕ, String, Option, none, some, List, [], ◌∷◌, ◌≡◌, sym, ap, subst, arith, inl, inr, Option-cases,
}
use dmr_decrep_shahar.Models.{Event}
use dmr_decrep_shahar.Parser.Handlers.{DsdLogParser}
use dmr_decrep_shahar.Parser.Line.{clean_line, parse_line, parse_lines, with_event}
use dmr_decrep_shahar.Parser.Cases.{Carries, bind_after, Reports, parse_line-Reports}

-- each position carries the radio that is bound when it comes
abbrev pub Chained : Option ℕ → List Event → Type 0
Chained bound [] = Unit {0}
Chained bound (ev ∷ events) = Carries bound ev.body × Chained (bind_after bound ev.body) events

-- the binding after some events
unfoldable pub bound_by : Option ℕ → List Event → Option ℕ
bound_by bound [] = bound
bound_by bound (ev ∷ events) = bound_by (bind_after bound ev.body) events

Chained-with_event :
    (p p' : DsdLogParser) (wall : ℕ) (line : String) (o : Option Event) (events : List Event)
    (after : Option ℕ)
    → Reports p wall line (p', o)
    → Chained p'.last_lrrp_src events × (after ≡ bound_by p'.last_lrrp_src events)
    → Chained p.last_lrrp_src (with_event o events)
      × (after ≡ bound_by p.last_lrrp_src (with_event o events))
unfolding with_event bound_by
Chained-with_event p p' wall line none events after (later, same) (c, b) =
    subst (λ q. Chained q events × (after ≡ bound_by q events)) same (c, b)
Chained-with_event p p' wall line (some ev) events after (later, same, carries, stamp, raw) (c, b) =
    let (c', b') = subst (λ q. Chained q events × (after ≡ bound_by q events)) same (c, b) in
    ((carries, c'), b')

-- Of the lines that are read, each event of a position carries the radio of the latest source mapping
-- since the position before it, or since the start, and none if there was none; the parser is left with the
-- radio that the next position is to carry.
pub parse_lines-Chained :
    (p p' : DsdLogParser) (lines : List (ℕ × String)) (events : List Event)
    → parse_lines p lines ≡ some (p', events)
    → Chained p.last_lrrp_src events × (p'.last_lrrp_src ≡ bound_by p.last_lrrp_src events)
unfolding parse_lines bound_by
parse_lines-Chained p p' [] events h =
    let same : p ≡ p' = ground arith in
    let found : [] ≡ events = ground arith in
    subst (λ evs. Chained p.last_lrrp_src evs × (p'.last_lrrp_src ≡ bound_by p.last_lrrp_src evs))
      found (tt, sym (ap (λ q. q.last_lrrp_src) same))
parse_lines-Chained p p' ((wall, raw) ∷ lines) events h =
    elim (Option-cases (parse_line p wall raw)) [
      | inl n ↦ cc (rw (n, parse_lines) at h)
      | inr ((p1, o), n) ↦ elim (Option-cases (parse_lines p1 lines)) [
        | inl n' ↦ cc (rw (n, n', parse_lines) at h)
        | inr ((p2, evs), n') ↦
            let h' = rw (n, n', parse_lines) at h in
            let same : p2 ≡ p' = ground (arith, h') in
            let found : with_event o evs ≡ events = ground (arith, h') in
            let ih = subst (λ q. parse_lines p1 lines ≡ some (q, evs)) same n' in
            subst
              (λ all.
                Chained p.last_lrrp_src all × (p'.last_lrrp_src ≡ bound_by p.last_lrrp_src all))
              found
              (Chained-with_event p p1 wall (clean_line raw) o evs p'.last_lrrp_src
                (parse_line-Reports p wall raw (p1, o) n) (parse_lines-Chained p1 p' lines evs ih))
      ]
    ]
