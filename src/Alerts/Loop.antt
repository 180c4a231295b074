-- ===== src/Alerts/Loop.antt =====
-- backend/alerts.py: from the evaluation of one rule to the loop over the rules, for both hooks.
use dmr_decrep_shahar.Prelude.{
  nat_key, string_key, ℕ, ◌+◌, Bool, true, false, Option, none, some, List, [], ◌∷◌, ◌≡◌, refl,
  arith, ◌⊎◌, inl, inr, Member, contains, Bool-cases, Option-cases, if◌then◌else◌, ltb, ap, sym,
  subst,
}
use dmr_decrep_shahar.Dict.{get}
use dmr_decrep_shahar.Models.{Event, Body, VoiceCallEvent, EncryptionEvent, voice_call, encryption}
use dmr_decrep_shahar.Alerts.Data.{
  Rule, RuleKind, AlertFiring, Evaluator, Quality, radio_keyup, encryption_rule, cc_silent,
  quality_spike, seconds,
}
use dmr_decrep_shahar.Alerts.Evaluate.{
  cooldown_ok, last_keys, same_key, set_last_keys, firing_of, evaluate_keyup, evaluate_encryption,
  evaluate_kind, evaluate_event, evaluate_silence, evaluate_quality, evaluate_tick_kind,
  evaluate_tick,
}
use dmr_decrep_shahar.Alerts.Run.{record_if, run_rules}

-- a property of the evaluator that every enabled rule keeps is kept by the loop
pub run_rules-induction {κ} :
    (P : Evaluator → Type κ) (evaluate : Evaluator → Rule → Evaluator × Option AlertFiring)
    (e : Evaluator) (rules : List Rule)
    → ((e : Evaluator) (rule : Rule)
        → Member rule rules
        → rule.enabled ≡ true
        → P e
        → P (record_if (evaluate e rule)))
    → P e
    → P (run_rules evaluate e rules)
unfolding run_rules
run_rules-induction P evaluate e [] keep p = p
run_rules-induction P evaluate e (rule ∷ rules) keep p =
    let at : Bool → Evaluator = λ b. if b then record_if (evaluate e rule) else e in
    let later : P (at rule.enabled) → P (run_rules evaluate (at rule.enabled) rules) =
      run_rules-induction P evaluate (at rule.enabled) rules (λ e r m. keep e r (inr m)) in
    elim (Bool-cases rule.enabled) [
      | inl on ↦ later (subst (λ b. P (at b)) (sym on) (keep e rule (inl refl) on p))
      | inr off ↦ later (subst (λ b. P (at b)) (sym off) p)
    ]

-- the rules, the log of firings and the cooldown clock are the same
abbrev pub SameLog : Evaluator → Evaluator → Type 0
SameLog a b =
    (b.rules ≡ a.rules)
    × (b.firings ≡ a.firings)
    × (b.firings_capacity ≡ a.firings_capacity)
    × (b.last_fired ≡ a.last_fired)

same_log : (e : Evaluator) → SameLog e e
same_log e = (refl, refl, refl, refl)

evaluate_keyup-SameLog :
    (e : Evaluator) (r : Rule) (ids : List ℕ) (v : VoiceCallEvent) (when : ℕ)
    → SameLog e (evaluate_keyup e r ids v when).0
unfolding evaluate_keyup set_last_keys
evaluate_keyup-SameLog e r ids v when = elim (Bool-cases (contains ids v.src)) [
  | inr b ↦ rw b (same_log e)
  | inl b ↦ elim (Bool-cases (same_key (get (last_keys e r) v.slot) (v.src, v.tgt))) [
    | inl c ↦ rw (b, c) (refl, refl, refl, refl)
    | inr c ↦ rw (b, c) (refl, refl, refl, refl)
  ]
]

evaluate_kind-SameLog :
    (e : Evaluator) (r : Rule) (kind : RuleKind) (body : Body) (when : ℕ)
    → SameLog e (evaluate_kind e r kind body when).0
unfolding evaluate_kind
evaluate_kind-SameLog e r (radio_keyup ids) (voice_call v) when =
    evaluate_keyup-SameLog e r ids v when
evaluate_kind-SameLog e r (encryption_rule tgs) (encryption x) when = same_log e
evaluate_kind-SameLog e r kind body when = same_log e

pub evaluate_event-SameLog :
    (e : Evaluator) (r : Rule) (ev : Event) → SameLog e (evaluate_event e r ev).0
unfolding evaluate_event
evaluate_event-SameLog e r ev = evaluate_kind-SameLog e r r.kind ev.body ev.timestamp

evaluate_silence-SameLog :
    (e : Evaluator) (r : Rule) (timeout now : ℕ) → SameLog e (evaluate_silence e r timeout now).0
unfolding evaluate_silence
evaluate_silence-SameLog e r timeout now = elim (Bool-cases (contains e.cc_silent_fired r.id)) [
  | inl b ↦ rw b (same_log e)
  | inr b ↦ elim (Option-cases e.last_cc_at) [
    | inl n ↦ rw (b, n) (same_log e)
    | inr (last, n) ↦ elim (Bool-cases (ltb now (last + seconds timeout))) [
      | inl c ↦ rw (b, n, c) (same_log e)
      | inr c ↦ rw (b, n, c) (refl, refl, refl, refl)
    ]
  ]
]

evaluate_tick_kind-SameLog :
    (quality : ℕ → Option Quality) (e : Evaluator) (r : Rule) (kind : RuleKind) (now : ℕ)
    → SameLog e (evaluate_tick_kind quality e r kind now).0
unfolding evaluate_tick_kind
evaluate_tick_kind-SameLog quality e r (cc_silent timeout) now =
    evaluate_silence-SameLog e r timeout now
evaluate_tick_kind-SameLog quality e r kind now = same_log e

pub evaluate_tick-SameLog :
    (quality : ℕ → Option Quality) (e : Evaluator) (r : Rule) (now : ℕ)
    → SameLog e (evaluate_tick quality e r now).0
unfolding evaluate_tick
evaluate_tick-SameLog quality e r now = evaluate_tick_kind-SameLog quality e r r.kind now

-- a kind of rule that waits for its cooldown
unfoldable pub is_paced : RuleKind → Bool
is_paced (cc_silent timeout) = false
is_paced kind = true

-- what a firing of a rule at a moment has
abbrev pub FiredBy : Evaluator → Rule → ℕ → AlertFiring → Type 0
FiredBy e r when f =
    (f.rule_id ≡ r.id)
    × (f.fired_at ≡ when)
    × ((is_paced r.kind ≡ false) ⊎ (cooldown_ok e r when ≡ true))

evaluate_keyup-FiredBy :
    (e : Evaluator) (r : Rule) (ids : List ℕ) (v : VoiceCallEvent) (when : ℕ) (f : AlertFiring)
    → (evaluate_keyup e r ids v when).1 ≡ some f
    → FiredBy e r when f
unfolding evaluate_keyup firing_of
evaluate_keyup-FiredBy e r ids v when f h = ground arith

evaluate_encryption-FiredBy :
    (e : Evaluator) (r : Rule) (tgs : List ℕ) (x : EncryptionEvent) (when : ℕ) (f : AlertFiring)
    → evaluate_encryption e r tgs x when ≡ some f
    → FiredBy e r when f
unfolding evaluate_encryption firing_of
evaluate_encryption-FiredBy e r tgs x when f h = ground arith

evaluate_kind-FiredBy :
    (e : Evaluator) (r : Rule) (kind : RuleKind) (body : Body) (when : ℕ) (f : AlertFiring)
    → (evaluate_kind e r kind body when).1 ≡ some f
    → FiredBy e r when f
unfolding evaluate_kind
evaluate_kind-FiredBy e r (radio_keyup ids) (voice_call v) when f h =
    evaluate_keyup-FiredBy e r ids v when f h
evaluate_kind-FiredBy e r (encryption_rule tgs) (encryption x) when f h =
    evaluate_encryption-FiredBy e r tgs x when f h
evaluate_kind-FiredBy e r kind body when f h = cc

pub evaluate_event-FiredBy :
    (e : Evaluator) (r : Rule) (ev : Event) (f : AlertFiring)
    → (evaluate_event e r ev).1 ≡ some f
    → FiredBy e r ev.timestamp f
unfolding evaluate_event
evaluate_event-FiredBy e r ev f h = evaluate_kind-FiredBy e r r.kind ev.body ev.timestamp f h

evaluate_silence-FiredBy :
    (e : Evaluator) (r : Rule) (timeout now : ℕ) (f : AlertFiring)
    → (evaluate_silence e r timeout now).1 ≡ some f
    → (f.rule_id ≡ r.id) × (f.fired_at ≡ now)
unfolding evaluate_silence firing_of
evaluate_silence-FiredBy e r timeout now f h = ground arith

evaluate_quality-FiredBy :
    (q : Option Quality) (e : Evaluator) (r : Rule) (window threshold now : ℕ) (f : AlertFiring)
    → evaluate_quality q e r window threshold now ≡ some f
    → FiredBy e r now f
unfolding evaluate_quality firing_of
evaluate_quality-FiredBy none e r window threshold now f h = cc
evaluate_quality-FiredBy (some q) e r window threshold now f h = ground arith

evaluate_tick_kind-FiredBy :
    (quality : ℕ → Option Quality) (e : Evaluator) (r : Rule) (kind : RuleKind) (now : ℕ)
    (f : AlertFiring)
    → kind ≡ r.kind
    → (evaluate_tick_kind quality e r kind now).1 ≡ some f
    → FiredBy e r now f
unfolding evaluate_tick_kind is_paced
evaluate_tick_kind-FiredBy quality e r (cc_silent timeout) now f k h =
    let (id, at) = evaluate_silence-FiredBy e r timeout now f h in
    (id, at, inl (ap is_paced (sym k)))
evaluate_tick_kind-FiredBy quality e r (quality_spike window threshold) now f k h =
    evaluate_quality-FiredBy (quality window) e r window threshold now f h
evaluate_tick_kind-FiredBy quality e r kind now f k h = cc

pub evaluate_tick-FiredBy :
    (quality : ℕ → Option Quality) (e : Evaluator) (r : Rule) (now : ℕ) (f : AlertFiring)
    → (evaluate_tick quality e r now).1 ≡ some f
    → FiredBy e r now f
unfolding evaluate_tick
evaluate_tick-FiredBy quality e r now f h =
    evaluate_tick_kind-FiredBy quality e r r.kind now f refl h
