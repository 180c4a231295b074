-- ===== src/Tests/Alerts.antt =====
-- backend/alerts.py: a rule on the keyups of radio 7 and one on a silent control channel.
use dmr_decrep_shahar.Prelude.{
  nat_key, string_key, ℕ, ◌+◌, ◌≤◌, String, true, false, none, some, List, [], ◌∷◌, map, ◌≡◌, refl,
  sym, subst, arith, inl, inr, ◌⊎◌, Member, String_discrete, ℕ_discrete, contains, length,
}
use dmr_decrep_shahar.Dict.{get, put}
use dmr_decrep_shahar.Sort.{Ordered}
use dmr_decrep_shahar.Models.{Event, Body, VoiceCallEvent, voice_call}
use dmr_decrep_shahar.Alerts.Data.{
  Rule, RuleKind, AlertFiring, Evaluator, radio_keyup, cc_silent, keyup_context, silent_context,
  seconds,
}
use dmr_decrep_shahar.Alerts.Rules.{same_id, remove_rule, record_firing, append_bounded, fan_out}
use dmr_decrep_shahar.Alerts.Evaluate.{
  cooldown_ok, last_keys, same_key, set_last_keys, firing_of, evaluate_keyup, evaluate_kind,
  evaluate_event, evaluate_silence, evaluate_tick_kind, evaluate_tick,
}
use dmr_decrep_shahar.Alerts.Run.{
  note_call, is_heartbeat, note_event, record_if, run_rules, on_event, tick, Input, event, ticked,
  step, run,
}
use dmr_decrep_shahar.Alerts.Loop.{is_paced}
use dmr_decrep_shahar.Alerts.Frame.{firings_of, rules_with}
use dmr_decrep_shahar.Alerts.Cooldown.{run-apart}
use dmr_decrep_shahar.Alerts.Silence.{run-once, is_input_heartbeat}
use dmr_decrep_shahar.Alerts.Memory.{Origin, on_event-Origin, remove_rule-forgets}

abbrev rule : String → RuleKind → Rule
rule id kind = record {
  id = id;
  name = id;
  enabled = true;
  cooldown_seconds = 60;
  created_at = 0;
  kind = kind;
}

abbrev watch : Rule
watch = rule "watch" (radio_keyup (7 ∷ []))

abbrev silence : Rule
silence = rule "silence" (cc_silent 30)

abbrev fresh : Evaluator
fresh = record {
  rules = watch ∷ silence ∷ [];
  firings = [];
  firings_capacity = 200;
  subscribers = (1, []) ∷ [];
  last_fired = [];
  last_call_key = [];
  slot_call = [];
  last_cc_at = none;
  cc_silent_fired = [];
}

abbrev voice : ℕ → VoiceCallEvent
voice tgt = record {
  slot = 1;
  src = 7;
  tgt = tgt;
  is_cap_plus = false;
  is_txi = false;
  rest_lsn = none;
}

abbrev at : ℕ → Body → Event
at ts body = record {
  timestamp = ts;
  raw_line = "";
  schema_version = 1;
  frequency = none;
  channel_label = none;
  body = body;
}

abbrev keyup : ℕ → ℕ → AlertFiring
keyup tgt ts = record {
  rule_id = "watch";
  rule_name = "watch";
  fired_at = ts;
  context = keyup_context 7 tgt 1;
}

abbrev inputs : List Input
inputs =
    event (at 1_000_000 (voice_call (voice 100)))
    ∷ event (at 2_000_000 (voice_call (voice 101)))
    ∷ event (at 70_000_000 (voice_call (voice 100)))
    ∷ []

-- the second keyup is within the cooldown
three_keyups : (run fresh inputs).firings ≡ keyup 100 1_000_000 ∷ keyup 100 70_000_000 ∷ []
unfolding run step on_event note_event note_call is_heartbeat run_rules record_if record_firing
    append_bounded fan_out evaluate_event evaluate_kind evaluate_keyup cooldown_ok last_keys
    same_key set_last_keys firing_of seconds contains get put String_discrete ℕ_discrete
three_keyups = refl

run-apart_example :
    Ordered
      (λ a b. a.fired_at + 60_000_000 ≤ b.fired_at)
      (firings_of "watch" (run fresh inputs).firings)
    × (length (run fresh inputs).firings ≤ (run fresh inputs).firings_capacity)
unfolding rules_with same_id String_discrete is_paced seconds
run-apart_example = run-apart "watch" 60_000_000 fresh inputs ((refl, omega arith), tt) refl

abbrev silent : AlertFiring
silent = record {
  rule_id = "silence";
  rule_name = "silence";
  fired_at = 40_000_000;
  context = silent_context 39_000_000 1_000_000;
}

-- the control channel was heard after one second, and the rule fired after forty
abbrev latched : Evaluator
latched = record fresh {
  firings = silent ∷ [];
  last_fired = ("silence", 40_000_000) ∷ [];
  last_cc_at = some 1_000_000;
  cc_silent_fired = "silence" ∷ [];
}

latched_by_tick :
    tick (λ w. none) (record fresh { last_cc_at = some 1_000_000; subscribers = [] }) 40_000_000
    ≡ record latched { subscribers = [] }
unfolding tick run_rules record_if record_firing append_bounded fan_out evaluate_tick
    evaluate_tick_kind evaluate_silence firing_of seconds contains get put String_discrete
    ℕ_discrete
latched_by_tick = refl

later_tick_is_quiet : (run latched (ticked (λ w. none) 90_000_000 ∷ [])).firings ≡ silent ∷ []
unfolding run step tick run_rules record_if record_firing evaluate_tick evaluate_tick_kind
    evaluate_silence contains String_discrete
later_tick_is_quiet = refl

run-once_example :
    Member silent latched.firings
    × Member "silence" (run latched (ticked (λ w. none) 90_000_000 ∷ [])).cc_silent_fired
unfolding rules_with same_id String_discrete is_paced is_input_heartbeat
run-once_example =
    run-once "silence" latched (ticked (λ w. none) 90_000_000 ∷ []) silent (refl, tt) (refl, tt)
      (inl refl) refl (subst (Member silent) (sym later_tick_is_quiet) (inl refl))

one_keyup :
    (on_event fresh (at 1_000_000 (voice_call (voice 100)))).firings ≡ keyup 100 1_000_000 ∷ []
unfolding on_event note_event note_call is_heartbeat run_rules record_if record_firing
    append_bounded fan_out evaluate_event evaluate_kind evaluate_keyup cooldown_ok last_keys
    same_key set_last_keys firing_of seconds contains get put String_discrete ℕ_discrete
one_keyup = refl

on_event-Origin_example :
    Member (keyup 100 1_000_000) fresh.firings ⊎ Origin fresh.rules 1_000_000 (keyup 100 1_000_000)
on_event-Origin_example =
    on_event-Origin fresh (at 1_000_000 (voice_call (voice 100))) (keyup 100 1_000_000)
      (subst (Member (keyup 100 1_000_000)) (sym one_keyup) (inl refl))

no_repeat : ¬ Member {A = String} "silence" []
no_repeat m = elim m [ ]

remove_rule-forgets_example :
    ((remove_rule latched "silence").1 ≡ true)
    × (¬ Member "silence" (map (λ r. r.id) (remove_rule latched "silence").0.rules))
    × (get (remove_rule latched "silence").0.last_fired "silence" ≡ none)
    × (get (remove_rule latched "silence").0.last_call_key "silence" ≡ none)
    × (¬ Member "silence" (remove_rule latched "silence").0.cc_silent_fired)
remove_rule-forgets_example =
    remove_rule-forgets latched "silence" (no_repeat, tt) tt (inr (inl refl))
