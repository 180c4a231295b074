-- ===== src/Alerts/Cooldown.antt =====
-- backend/alerts.py: the cooldown clock `_last_fired` and the bounded log, over sequences of events
-- and ticks.
use dmr_decrep_shahar.Prelude.{
  nat_key, string_key, ℕ, ◌+◌, ◌-◌, ◌≤◌, String, true, Option, none, some, List, [], ◌∷◌, ◌++◌, ◌≡◌,
  refl, sym, ap, ◌∙◌, subst, arith, inl, inr, All, All-Member, All-intro, All-append, All-drop,
  length, length-drop, filter, Member-filter, filter-Member, String_discrete, Bool-cases,
}
use dmr_decrep_shahar.Sort.{Ordered, Ordered-drop, Ordered-append}
use dmr_decrep_shahar.Dict.{Dict, get, put}
use dmr_decrep_shahar.Dict.Laws.{get-put_self, get-put_ne}
use dmr_decrep_shahar.Models.{Event}
use dmr_decrep_shahar.Alerts.Data.{Rule, AlertFiring, Evaluator, Quality, seconds}
use dmr_decrep_shahar.Alerts.Rules.{record_firing, append_bounded, same_id}
use dmr_decrep_shahar.Alerts.Evaluate.{cooldown_ok, evaluate_event, evaluate_tick}
use dmr_decrep_shahar.Alerts.Run.{
  record_if, note_event, on_event, tick, Input, event, ticked, step, run,
}
use dmr_decrep_shahar.Alerts.Loop.{
  run_rules-induction, SameLog, is_paced, FiredBy, evaluate_event-SameLog, evaluate_event-FiredBy,
  evaluate_tick-SameLog, evaluate_tick-FiredBy,
}
use dmr_decrep_shahar.Alerts.Frame.{
  note_event-SameLog, on_event-rules, tick-rules, firings_of, rules_with, same_id-≡, ≡-same_id,
}

-- `b` is at least `gap` after `a`, where both are firings of the rule
abbrev pub Apart : String → ℕ → AlertFiring → AlertFiring → Type 0
Apart id gap a b = a.rule_id ≡ id → b.rule_id ≡ id → a.fired_at + gap ≤ b.fired_at

-- the cooldown clock of the rule is not before the firing
abbrev pub Clocked : String → Dict String ℕ → AlertFiring → Type 0
Clocked id clock a = a.rule_id ≡ id → (t : ℕ) × (get clock id ≡ some t) × (a.fired_at ≤ t)

abbrev pub PacedLog : String → ℕ → List AlertFiring → ℕ → Dict String ℕ → Type 0
PacedLog id gap firings capacity clock =
    Ordered (Apart id gap) firings × All (Clocked id clock) firings × (length firings ≤ capacity)

abbrev pub Paced : String → ℕ → Evaluator → Type 0
Paced id gap e = PacedLog id gap e.firings e.firings_capacity e.last_fired

-- each rule with the id waits for its cooldown, of at least the gap
abbrev pub Waits : String → ℕ → Rule → Type 0
Waits id gap r = r.id ≡ id → (is_paced r.kind ≡ true) × (gap ≤ seconds r.cooldown_seconds)

module _ (id : String) (gap : ℕ) where
  put-Clocked :
      (clock : Dict String ℕ) (f a : AlertFiring)
      → (f.rule_id ≡ id → (t : ℕ) → get clock id ≡ some t → t + gap ≤ f.fired_at)
      → Clocked id clock a
      → Clocked id (put clock f.rule_id f.fired_at) a
  put-Clocked clock f a wait h is_id = elim (String_discrete f.rule_id id) [
    | yes p ↦
        let (t, g, le) = h is_id in
        let here : get (put clock f.rule_id f.fired_at) id ≡ some f.fired_at =
          rw p (get-put_self clock id f.fired_at) in
        (f.fired_at, here, omega (arith, le, wait p t g))
    | no n ↦ let (t, g, le) = h is_id in (t, (get-put_ne clock f.rule_id id f.fired_at n ∙ g), le)
  ]

  record_firing-Paced :
      (e : Evaluator) (f : AlertFiring)
      → (f.rule_id ≡ id → (t : ℕ) → get e.last_fired id ≡ some t → t + gap ≤ f.fired_at)
      → Paced id gap e
      → Paced id gap (record_firing e f)
  unfolding record_firing append_bounded
  record_firing-Paced e f wait (apart, clocked, bound) =
      let n = length (e.firings ++ f ∷ []) - e.firings_capacity in
      let old : All (Clocked id (put e.last_fired f.rule_id f.fired_at)) e.firings =
        All-intro _ e.firings
          (λ a m. put-Clocked e.last_fired f a wait (All-Member _ e.firings a clocked m)) in
      let new : Clocked id (put e.last_fired f.rule_id f.fired_at) f =
        λ p. (f.fired_at, (rw p (get-put_self e.last_fired id f.fired_at)), omega arith) in
      let later : All (λ a. Apart id gap a f) e.firings = All-intro _ e.firings (λ a m p q.
        let (t, g, le) = All-Member _ e.firings a clocked m p in omega (arith, le, wait q t g)) in
      (
        Ordered-drop (Apart id gap) n _ (Ordered-append (Apart id gap) e.firings f apart later),
        All-drop _ n _ (All-append _ e.firings (f ∷ []) old (new, tt)),
        omega (arith, length-drop n (e.firings ++ f ∷ [])),
      )

  PacedLog-same :
      (fs gs : List AlertFiring) (m n : ℕ) (c d : Dict String ℕ)
      → gs ≡ fs
      → n ≡ m
      → d ≡ c
      → PacedLog id gap fs m c
      → PacedLog id gap gs n d
  PacedLog-same fs gs m n c d p q r h = rw (p, q, r) h

  SameLog-Paced : (a b : Evaluator) → SameLog a b → Paced id gap a → Paced id gap b
  SameLog-Paced a b (_, fs, m, c) h = PacedLog-same _ _ _ _ _ _ fs m c h

  cooldown_ok-le :
      (e : Evaluator) (r : Rule) (when t : ℕ)
      → cooldown_ok e r when ≡ true
      → get e.last_fired r.id ≡ some t
      → t + seconds r.cooldown_seconds ≤ when
  unfolding cooldown_ok
  cooldown_ok-le e r when t h g = ground arith

  record_if-Paced :
      (e : Evaluator) (r : Rule) (when : ℕ) (out : Evaluator × Option AlertFiring)
      → SameLog e out.0
      → ((f : AlertFiring) → out.1 ≡ some f → FiredBy e r when f)
      → Waits id gap r
      → Paced id gap e
      → Paced id gap (record_if out)
  unfolding record_if
  record_if-Paced e r when (e', none) log fired waits h = SameLog-Paced e e' log h
  record_if-Paced e r when (e', some f) log fired waits h =
      let (by, at, ok) = fired f refl in
      record_firing-Paced e' f
        (λ p t g.
          let is_id : r.id ≡ id = sym by ∙ p in
          let (paced, long) = waits is_id in
          let ready : cooldown_ok e r when ≡ true = ground arith in
          let was : get e.last_fired r.id ≡ some t =
            ap (get e.last_fired) is_id ∙ ap (λ c. get c id) (sym (log.3)) ∙ g in
          omega (arith, long, at, cooldown_ok-le e r when t ready was))
        (SameLog-Paced e e' log h)

  on_event-Paced :
      (e : Evaluator) (ev : Event)
      → All (Waits id gap) e.rules
      → Paced id gap e
      → Paced id gap (on_event e ev)
  unfolding on_event
  on_event-Paced e ev waits h =
      let noted = note_event e ev in
      let log = note_event-SameLog e ev in
      run_rules-induction (Paced id gap) (λ e rule. evaluate_event e rule ev) noted noted.rules
        (λ e' r m on p.
          record_if-Paced e' r ev.timestamp (evaluate_event e' r ev)
            (evaluate_event-SameLog e' r ev) (evaluate_event-FiredBy e' r ev)
            (All-Member (Waits id gap) noted.rules r (subst (All (Waits id gap)) (sym log.0) waits)
              m)
            p)
        (SameLog-Paced e noted log h)

  tick-Paced :
      (quality : ℕ → Option Quality) (e : Evaluator) (now : ℕ)
      → All (Waits id gap) e.rules
      → Paced id gap e
      → Paced id gap (tick quality e now)
  unfolding tick
  tick-Paced quality e now waits h =
      run_rules-induction (Paced id gap) (λ e rule. evaluate_tick quality e rule now) e e.rules
        (λ e' r m on p.
          record_if-Paced e' r now (evaluate_tick quality e' r now)
            (evaluate_tick-SameLog quality e' r now) (evaluate_tick-FiredBy quality e' r now)
            (All-Member (Waits id gap) e.rules r waits m) p)
        h

  run-Paced :
      (e : Evaluator) (inputs : List Input)
      → All (Waits id gap) e.rules
      → Paced id gap e
      → Paced id gap (run e inputs)
  unfolding run step
  run-Paced e [] waits h = h
  run-Paced e (event ev ∷ inputs) waits h =
      run-Paced (on_event e ev) inputs
        (subst (All (Waits id gap)) (sym (on_event-rules e ev)) waits) (on_event-Paced e ev waits h)
  run-Paced e (ticked quality now ∷ inputs) waits h =
      run-Paced (tick quality e now) inputs
        (subst (All (Waits id gap)) (sym (tick-rules quality e now)) waits)
        (tick-Paced quality e now waits h)

firings_of-Ordered :
    (id : String) (gap : ℕ) (fs : List AlertFiring)
    → Ordered (Apart id gap) fs
    → Ordered (λ a b. a.fired_at + gap ≤ b.fired_at) (firings_of id fs)
unfolding firings_of
firings_of-Ordered id gap [] o = tt
firings_of-Ordered id gap (f ∷ fs) o = elim (Bool-cases (same_id f.rule_id id)) [
  | inl b ↦
      let rest : All (λ b. f.fired_at + gap ≤ b.fired_at) (firings_of id fs) =
        All-intro _ (firings_of id fs) (λ g m.
          let (inside, same) = Member-filter g _ fs m in
          All-Member _ fs g o.0 inside (same_id-≡ _ _ b) (same_id-≡ _ _ same)) in
      rw (b, filter) (rest, firings_of-Ordered id gap fs o.1)
  | inr b ↦ rw (b, filter) (firings_of-Ordered id gap fs o.1)
]

-- Over any events and ticks that an evaluator without firings takes, each firing of a rule is at least
-- the rule's cooldown after every earlier one of it in the log, and the log never holds more than its
-- capacity. The rule may be any but one on a silent control channel, and if other rules have its id,
-- they are such rules and wait as long.
pub run-apart :
    (id : String) (gap : ℕ) (e : Evaluator) (inputs : List Input)
    → All
        (λ r. (is_paced r.kind ≡ true) × (gap ≤ seconds r.cooldown_seconds))
        (rules_with id e.rules)
    → e.firings ≡ []
    → Ordered (λ a b. a.fired_at + gap ≤ b.fired_at) (firings_of id (run e inputs).firings)
      × (length (run e inputs).firings ≤ (run e inputs).firings_capacity)
unfolding rules_with
run-apart id gap e inputs waits empty =
    let all_wait : All (Waits id gap) e.rules = All-intro _ e.rules (λ r m p.
      All-Member _ (rules_with id e.rules) r waits
        (filter-Member r _ e.rules m (≡-same_id _ _ p))) in
    let start : Paced id gap e =
      PacedLog-same id gap [] e.firings _ _ _ _ empty refl refl (tt, tt, omega arith) in
    let (apart, _, bound) = run-Paced id gap e inputs all_wait start in
    (firings_of-Ordered id gap _ apart, bound)
