-- ===== src/Alerts/Silence.antt =====
-- backend/alerts.py: the latch `_cc_silent_fired` of the rules on a silent control channel.
use dmr_decrep_shahar.Prelude.{
  nat_key, string_key, ℕ, ◌+◌, String, Bool, false, Option, none, some, List, [], ◌∷◌, ◌==◌, ◌≡◌,
  ◌≢◌, refl, sym, ap, ◌∙◌, subst, inl, inr, Member, All, All-Member, Member-append, Member-drop,
  filter-Member, contains, contains-Member, Bool-cases, Option-cases, ltb,
}
use dmr_decrep_shahar.Models.{Event, Body, VoiceCallEvent, voice_call, encryption}
use dmr_decrep_shahar.Alerts.Data.{
  Rule, RuleKind, AlertFiring, Evaluator, Quality, seconds, radio_keyup, encryption_rule, cc_silent,
  quality_spike,
}
use dmr_decrep_shahar.Alerts.Rules.{record_firing, append_bounded}
use dmr_decrep_shahar.Alerts.Evaluate.{
  evaluate_kind, evaluate_event, evaluate_tick_kind, evaluate_tick, evaluate_silence,
  evaluate_keyup, set_last_keys, same_key, last_keys,
}
use dmr_decrep_shahar.Alerts.Run.{
  record_if, note_call, is_heartbeat, note_event, on_event, tick, Input, event, ticked, step, run,
}
use dmr_decrep_shahar.Alerts.Loop.{
  run_rules-induction, SameLog, is_paced, FiredBy, evaluate_event-SameLog, evaluate_event-FiredBy,
  evaluate_tick-SameLog, evaluate_tick-FiredBy,
}
use dmr_decrep_shahar.Alerts.Frame.{
  note_event-SameLog, on_event-rules, tick-rules, rules_with, ≡-same_id,
}
use dmr_decrep_shahar.Dict.{get}

-- a rule on a silent control channel takes no notice of an event, nor of a tick once it is latched
evaluate_kind-quiet :
    (e : Evaluator) (r : Rule) (kind : RuleKind) (body : Body) (when : ℕ)
    → is_paced kind ≡ false
    → (evaluate_kind e r kind body when).1 ≡ none
unfolding evaluate_kind is_paced
evaluate_kind-quiet e r (cc_silent timeout) body when h = refl
evaluate_kind-quiet e r (radio_keyup ids) body when h = cc
evaluate_kind-quiet e r (encryption_rule tgs) body when h = cc
evaluate_kind-quiet e r (quality_spike w t) body when h = cc

evaluate_tick_kind-quiet :
    (quality : ℕ → Option Quality) (e : Evaluator) (r : Rule) (kind : RuleKind) (now : ℕ)
    → is_paced kind ≡ false
    → Member r.id e.cc_silent_fired
    → (evaluate_tick_kind quality e r kind now).1 ≡ none
unfolding evaluate_tick_kind is_paced evaluate_silence
evaluate_tick_kind-quiet quality e r (cc_silent timeout) now h m =
    rw (contains-Member e.cc_silent_fired r.id m) refl
evaluate_tick_kind-quiet quality e r (radio_keyup ids) now h m = cc
evaluate_tick_kind-quiet quality e r (encryption_rule tgs) now h m = cc
evaluate_tick_kind-quiet quality e r (quality_spike w t) now h m = cc

-- no evaluation of a rule opens a latch
module _ (id : String) where
  evaluate_keyup-latch :
      (e : Evaluator) (r : Rule) (ids : List ℕ) (v : VoiceCallEvent) (when : ℕ)
      → Member id e.cc_silent_fired
      → Member id (evaluate_keyup e r ids v when).0.cc_silent_fired
  unfolding evaluate_keyup set_last_keys
  evaluate_keyup-latch e r ids v when m = elim (Bool-cases (contains ids v.src)) [
    | inr b ↦ rw b m
    | inl b ↦ elim (Bool-cases (same_key (get (last_keys e r) v.slot) (v.src, v.tgt))) [
      | inl c ↦ rw (b, c) m
      | inr c ↦ rw (b, c) m
    ]
  ]

  evaluate_kind-latch :
      (e : Evaluator) (r : Rule) (kind : RuleKind) (body : Body) (when : ℕ)
      → Member id e.cc_silent_fired
      → Member id (evaluate_kind e r kind body when).0.cc_silent_fired
  unfolding evaluate_kind
  evaluate_kind-latch e r (radio_keyup ids) (voice_call v) when m =
      evaluate_keyup-latch e r ids v when m
  evaluate_kind-latch e r (encryption_rule tgs) (encryption x) when m = m
  evaluate_kind-latch e r kind body when m = m

  evaluate_silence-latch :
      (e : Evaluator) (r : Rule) (timeout now : ℕ)
      → Member id e.cc_silent_fired
      → Member id (evaluate_silence e r timeout now).0.cc_silent_fired
  unfolding evaluate_silence
  evaluate_silence-latch e r timeout now m = elim (Bool-cases (contains e.cc_silent_fired r.id)) [
    | inl b ↦ rw b m
    | inr b ↦ elim (Option-cases e.last_cc_at) [
      | inl n ↦ rw (b, n) m
      | inr (last, n) ↦ elim (Bool-cases (ltb now (last + seconds timeout))) [
        | inl c ↦ rw (b, n, c) m
        | inr c ↦ rw (b, n, c) (inr m)
      ]
    ]
  ]

  evaluate_tick_kind-latch :
      (quality : ℕ → Option Quality) (e : Evaluator) (r : Rule) (kind : RuleKind) (now : ℕ)
      → Member id e.cc_silent_fired
      → Member id (evaluate_tick_kind quality e r kind now).0.cc_silent_fired
  unfolding evaluate_tick_kind
  evaluate_tick_kind-latch quality e r (cc_silent timeout) now m =
      evaluate_silence-latch e r timeout now m
  evaluate_tick_kind-latch quality e r kind now m = m

-- the latch of the rule is closed, and each firing of the rule is in the log before
abbrev pub Latched : String → List AlertFiring → Evaluator → Type 0
Latched id before e =
    Member id e.cc_silent_fired
    × ((f : AlertFiring) → f.rule_id ≡ id → Member f e.firings → Member f before)

rule_kind :
    (id : String) (rules : List Rule) (r : Rule)
    → All (λ r. is_paced r.kind ≡ false) (rules_with id rules)
    → r.id ≡ id
    → Member r rules
    → is_paced r.kind ≡ false
unfolding rules_with
rule_kind id rules r kinds p m =
    All-Member _ (rules_with id rules) r kinds (filter-Member r _ rules m (≡-same_id _ _ p))

-- the input brings the control channel back
unfoldable pub is_input_heartbeat : Input → Bool
is_input_heartbeat (event ev) = is_heartbeat ev.body
is_input_heartbeat (ticked quality now) = false

module _ (id : String) (before : List AlertFiring) where
  record_if-Latched :
      (e : Evaluator) (r : Rule) (when : ℕ) (out : Evaluator × Option AlertFiring)
      → SameLog e out.0
      → ((f : AlertFiring) → out.1 ≡ some f → FiredBy e r when f)
      → (r.id ≡ id → out.1 ≡ none)
      → Member id out.0.cc_silent_fired
      → Latched id before e
      → Latched id before (record_if out)
  unfolding record_if record_firing append_bounded
  record_if-Latched e r when (e', none) log fired quiet latch h =
      (latch, λ f p m. h.1 f p (subst (Member f) (log.1) m))
  record_if-Latched e r when (e', some g) log fired quiet latch h =
      let other : r.id ≢ id = λ p. cc (quiet p) in
      (
        latch,
        λ f p m. elim (Member-append f e'.firings (g ∷ []) (Member-drop f _ _ m)) [
          | inl old ↦ h.1 f p (subst (Member f) (log.1) old)
          | inr (inl q) ↦
              absurd
                (other (sym (fired g refl).0 ∙ ap (λ (x : AlertFiring). x.rule_id) (sym q) ∙ p))
          | inr (inr q) ↦ elim q [ ]
        ],
      )

  note_call-Latched :
      (e : Evaluator) (body : Body) → Latched id before e → Latched id before (note_call e body)
  unfolding note_call
  note_call-Latched e (voice_call v) h = elim (Bool-cases (v.src == 0)) [
    | inl b ↦ rw b h
    | inr b ↦ rw b h
  ]
  note_call-Latched e body h = h

  note_event-Latched :
      (e : Evaluator) (ev : Event)
      → is_heartbeat ev.body ≡ false
      → Latched id before e
      → Latched id before (note_event e ev)
  unfolding note_event
  note_event-Latched e ev quiet h = rw quiet (note_call-Latched e ev.body h)

  on_event-Latched :
      (e : Evaluator) (ev : Event)
      → is_heartbeat ev.body ≡ false
      → All (λ r. is_paced r.kind ≡ false) (rules_with id e.rules)
      → Latched id before e
      → Latched id before (on_event e ev)
  unfolding on_event evaluate_event
  on_event-Latched e ev quiet kinds h =
      let noted = note_event e ev in
      let log = note_event-SameLog e ev in
      run_rules-induction (Latched id before) (λ e rule. evaluate_event e rule ev) noted noted.rules
        (λ a r m on p.
          record_if-Latched a r ev.timestamp (evaluate_event a r ev) (evaluate_event-SameLog a r ev)
            (evaluate_event-FiredBy a r ev)
            (λ q.
              evaluate_kind-quiet a r r.kind ev.body ev.timestamp
                (rule_kind id e.rules r kinds q (subst (Member r) log.0 m)))
            (evaluate_kind-latch id a r r.kind ev.body ev.timestamp p.0) p)
        (note_event-Latched e ev quiet h)

  tick-Latched :
      (quality : ℕ → Option Quality) (e : Evaluator) (now : ℕ)
      → All (λ r. is_paced r.kind ≡ false) (rules_with id e.rules)
      → Latched id before e
      → Latched id before (tick quality e now)
  unfolding tick evaluate_tick
  tick-Latched quality e now kinds h =
      run_rules-induction (Latched id before) (λ e rule. evaluate_tick quality e rule now) e e.rules
        (λ a r m on p.
          record_if-Latched a r now (evaluate_tick quality a r now)
            (evaluate_tick-SameLog quality a r now) (evaluate_tick-FiredBy quality a r now)
            (λ q.
              evaluate_tick_kind-quiet quality a r r.kind now (rule_kind id e.rules r kinds q m)
                (rw q p.0))
            (evaluate_tick_kind-latch id quality a r r.kind now p.0) p)
        h

  run-Latched :
      (e : Evaluator) (inputs : List Input)
      → All (λ input. is_input_heartbeat input ≡ false) inputs
      → All (λ r. is_paced r.kind ≡ false) (rules_with id e.rules)
      → Latched id before e
      → Latched id before (run e inputs)
  unfolding run step is_input_heartbeat
  run-Latched e [] silent kinds h = h
  run-Latched e (event ev ∷ inputs) silent kinds h =
      run-Latched (on_event e ev) inputs silent.1 (rw (on_event-rules e ev) kinds)
        (on_event-Latched e ev silent.0 kinds h)
  run-Latched e (ticked quality now ∷ inputs) silent kinds h =
      run-Latched (tick quality e now) inputs silent.1 (rw (tick-rules quality e now) kinds)
        (tick-Latched quality e now kinds h)

-- Once a rule on a silent control channel is latched, it does not fire again and stays latched over any
-- events and ticks until the control channel is heard: each of its firings in the log was there before.
-- If other rules have its id, they are such rules too.
pub run-once :
    (id : String) (e : Evaluator) (inputs : List Input) (f : AlertFiring)
    → All (λ r. is_paced r.kind ≡ false) (rules_with id e.rules)
    → All (λ input. is_input_heartbeat input ≡ false) inputs
    → Member id e.cc_silent_fired
    → f.rule_id ≡ id
    → Member f (run e inputs).firings
    → Member f e.firings × Member id (run e inputs).cc_silent_fired
run-once id e inputs f kinds silent latch p m =
    let (still, only) = run-Latched id e.firings e inputs silent kinds (latch, λ g q n. n) in
    (only f p m, still)
