-- ===== src/Multiplex/Apart.antt =====
-- backend/rf/multiplex.py: the lines of one channel among those of the others.
use dmr_decrep_shahar.Prelude.{
  nat_key, ℕ, String, Option, some, List, [], ◌∷◌, ite, if_pos, if_neg, ℕ_discrete, ◌≡◌, refl, sym,
  ap, subst, ◌∙◌, arith, inl, inr, Option-cases,
}
use dmr_decrep_shahar.Dict.{get}
use dmr_decrep_shahar.Dict.Laws.{get-put_self, get-put_ne}
use dmr_decrep_shahar.Models.{Event}
use dmr_decrep_shahar.Parser.Handlers.{DsdLogParser}
use dmr_decrep_shahar.Parser.Line.{parse_line, parse_lines, with_event}
use dmr_decrep_shahar.Wrapper.{LineRunner, Arrival, handle_parsed}
use dmr_decrep_shahar.Wrapper.Consume.{handle_parsed-parser}
use dmr_decrep_shahar.Multiplex.{Multichannel, runner_of, absorb, channel_line, run_multichannel}

-- the lines of one channel, in their order
abbrev pub lines_of : ℕ → List (ℕ × Arrival) → List (ℕ × String)
lines_of i [] = []
lines_of i ((j, a) ∷ more) =
    ite (ℕ_discrete j i) ((a.wall, a.line) ∷ lines_of i more) (lines_of i more)

-- the parser of the channel after the run is that of a run of its lines alone
abbrev pub RunsAlone : ℕ → DsdLogParser → List (ℕ × Arrival) → Multichannel → Type 0
RunsAlone i p steps m' =
    (out : DsdLogParser × List Event) × (parse_lines p (lines_of i steps) ≡ some out)
    × (get m'.parsers i ≡ some out.0)

absorb_self :
    (m : Multichannel) (i : ℕ) (a : Arrival) (p p1 : DsdLogParser) (o : Option Event)
    → get (absorb m i (handle_parsed a (runner_of m i p) (p1, o))).parsers i ≡ some p1
unfolding absorb
absorb_self m i a p p1 o =
    let r = handle_parsed a (runner_of m i p) (p1, o) in
    get-put_self m.parsers i r.parser ∙ ap some (handle_parsed-parser a (runner_of m i p) p1 o)

absorb_other :
    (m : Multichannel) (i j : ℕ) (r : LineRunner)
    → ¬ (j ≡ i)
    → get (absorb m j r).parsers i ≡ get m.parsers i
unfolding absorb
absorb_other m i j r n = get-put_ne m.parsers j i r.parser n

RunsAlone-cons :
    (i : ℕ) (p p1 : DsdLogParser) (a : Arrival) (o : Option Event) (steps : List (ℕ × Arrival))
    (m' : Multichannel)
    → parse_line p a.wall a.line ≡ some (p1, o)
    → RunsAlone i p1 steps m'
    → RunsAlone i p ((i, a) ∷ steps) m'
unfolding parse_lines
RunsAlone-cons i p p1 a o steps m' e ((p2, evs), h, g) =
    let own : lines_of i ((i, a) ∷ steps) ≡ (a.wall, a.line) ∷ lines_of i steps =
      if_pos (ℕ_discrete i i) refl _ _ in
    ((p2, with_event o evs), ap (parse_lines p) own ∙ rw (e, h, parse_lines) refl, g)

RunsAlone-skip :
    (i j : ℕ) (p : DsdLogParser) (a : Arrival) (steps : List (ℕ × Arrival)) (m' : Multichannel)
    → ¬ (j ≡ i)
    → RunsAlone i p steps m'
    → RunsAlone i p ((j, a) ∷ steps) m'
RunsAlone-skip i j p a steps m' n (out, h, g) =
    (out, ap (parse_lines p) (if_neg (ℕ_discrete j i) n _ _) ∙ h, g)

-- However the lines of the channels of a run that raises no exception are interleaved, the parser of each
-- channel reads the lines of its own channel as it would read them alone, and is left as they leave it.
pub run_multichannel-RunsAlone :
    (m m' : Multichannel) (i : ℕ) (p : DsdLogParser) (steps : List (ℕ × Arrival))
    → get m.parsers i ≡ some p
    → run_multichannel m steps ≡ some m'
    → RunsAlone i p steps m'
unfolding run_multichannel parse_lines channel_line
run_multichannel-RunsAlone m m' i p [] g h =
    let same : m ≡ m' = ground arith in
    ((p, []), refl, ap (λ (x : Multichannel). get x.parsers i) (sym same) ∙ g)
run_multichannel-RunsAlone m m' i p ((j, a) ∷ more) g h = elim (ℕ_discrete j i) [
  | yes e ↦
      let g' : get m.parsers j ≡ some p = ap (get m.parsers) e ∙ g in
      elim (Option-cases (parse_line p a.wall a.line)) [
        | inl n ↦ cc (rw (g', n, run_multichannel) at h)
        | inr ((p1, o), n) ↦
            let m1 = absorb m j (handle_parsed a (runner_of m j p) (p1, o)) in
            let h1 : run_multichannel m1 more ≡ some m' = rw (g', n, run_multichannel) at h in
            let g1 : get m1.parsers i ≡ some p1 =
              subst (λ x. get m1.parsers x ≡ some p1) e (absorb_self m j a p p1 o) in
            subst (λ x. RunsAlone i p ((x, a) ∷ more) m') (sym e)
              (RunsAlone-cons i p p1 a o more m' n
                (run_multichannel-RunsAlone m1 m' i p1 more g1 h1))
      ]
  | no ne ↦ elim (Option-cases (get m.parsers j)) [
    | inl n ↦
        let h1 : run_multichannel m more ≡ some m' = rw (n, run_multichannel) at h in
        RunsAlone-skip i j p a more m' ne (run_multichannel-RunsAlone m m' i p more g h1)
    | inr (q, n) ↦ elim (Option-cases (parse_line q a.wall a.line)) [
      | inl n' ↦ cc (rw (n, n', run_multichannel) at h)
      | inr ((q1, o), n') ↦
          let r = handle_parsed a (runner_of m j q) (q1, o) in
          let h1 : run_multichannel (absorb m j r) more ≡ some m' =
            rw (n, n', run_multichannel) at h in
          let g1 : get (absorb m j r).parsers i ≡ some p = absorb_other m i j r ne ∙ g in
          RunsAlone-skip i j p a more m' ne
            (run_multichannel-RunsAlone (absorb m j r) m' i p more g1 h1)
    ]
  ]
]
