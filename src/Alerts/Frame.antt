-- ===== src/Alerts/Frame.antt =====
-- backend/alerts.py: what the hooks leave as it was, and the firings and rules of an id.
use dmr_decrep_shahar.Prelude.{
  nat_key, string_key, ℕ, ◌==◌, String, true, Option, none, some, List, ◌≡◌, refl, ◌∙◌, arith, inl,
  inr, filter, Bool-cases,
}
use dmr_decrep_shahar.Models.{Event, Body, voice_call}
use dmr_decrep_shahar.Alerts.Data.{Rule, AlertFiring, Evaluator, Quality}
use dmr_decrep_shahar.Alerts.Rules.{record_firing, same_id}
use dmr_decrep_shahar.Alerts.Evaluate.{evaluate_event, evaluate_tick}
use dmr_decrep_shahar.Alerts.Run.{record_if, note_call, is_heartbeat, note_event, on_event, tick}
use dmr_decrep_shahar.Alerts.Loop.{
  run_rules-induction, SameLog, evaluate_event-SameLog, evaluate_tick-SameLog,
}

note_call-SameLog : (e : Evaluator) (body : Body) → SameLog e (note_call e body)
unfolding note_call
note_call-SameLog e (voice_call v) = elim (Bool-cases (v.src == 0)) [
  | inl b ↦ rw b (refl, refl, refl, refl)
  | inr b ↦ rw b (refl, refl, refl, refl)
]
note_call-SameLog e body = (refl, refl, refl, refl)

pub note_event-SameLog : (e : Evaluator) (ev : Event) → SameLog e (note_event e ev)
unfolding note_event
note_event-SameLog e ev =
    let noted = note_call-SameLog e ev.body in
    elim (Bool-cases (is_heartbeat ev.body)) [ inl b ↦ rw b noted | inr b ↦ rw b noted ]

record_if-rules :
    (e : Evaluator) (out : Evaluator × Option AlertFiring) (rules : List Rule)
    → SameLog e out.0
    → e.rules ≡ rules
    → (record_if out).rules ≡ rules
unfolding record_if record_firing
record_if-rules e (e', none) rules log h = log.0 ∙ h
record_if-rules e (e', some f) rules log h = log.0 ∙ h

pub on_event-rules : (e : Evaluator) (ev : Event) → (on_event e ev).rules ≡ e.rules
unfolding on_event
on_event-rules e ev =
    let noted = note_event e ev in
    run_rules-induction (λ a. a.rules ≡ e.rules) (λ e rule. evaluate_event e rule ev) noted
      noted.rules
      (λ a r m on h.
        record_if-rules a (evaluate_event a r ev) e.rules (evaluate_event-SameLog a r ev) h)
      (note_event-SameLog e ev).0

pub tick-rules :
    (quality : ℕ → Option Quality) (e : Evaluator) (now : ℕ) → (tick quality e now).rules ≡ e.rules
unfolding tick
tick-rules quality e now =
    run_rules-induction (λ a. a.rules ≡ e.rules) (λ e rule. evaluate_tick quality e rule now) e
      e.rules
      (λ a r m on h.
        record_if-rules a (evaluate_tick quality a r now) e.rules
          (evaluate_tick-SameLog quality a r now) h)
      refl

-- the firings of a rule, and the rules with an id
unfoldable pub firings_of : String → List AlertFiring → List AlertFiring
unfolding same_id
firings_of id = filter (λ f. same_id f.rule_id id)

unfoldable pub rules_with : String → List Rule → List Rule
unfolding same_id
rules_with id = filter (λ r. same_id r.id id)

pub same_id-≡ : (x y : String) → same_id x y ≡ true → x ≡ y
unfolding same_id
same_id-≡ x y h = ground arith

pub ≡-same_id : (x y : String) → x ≡ y → same_id x y ≡ true
unfolding same_id
≡-same_id x y h = ground arith
