-- ===== src/Alerts/Evaluate.antt =====
-- backend/alerts.py: what a rule makes of an event and of a tick of the clock.
use dmr_decrep_shahar.Prelude.{
  nat_key, string_key, ℕ, ◌+◌, ◌-◌, Bool, true, false, not, ◌&&◌, ◌||◌, Option, none, some, List,
  [], ◌∷◌, ltb, leb, ◌==◌, if◌then◌else◌, contains,
}
use dmr_decrep_shahar.Dict.{Dict, get, put}
use dmr_decrep_shahar.Models.{Event, Body, VoiceCallEvent, EncryptionEvent, voice_call, encryption}
use dmr_decrep_shahar.Alerts.Data.{
  Rule, RuleKind, Context, AlertFiring, Evaluator, Quality, radio_keyup, encryption_rule, cc_silent,
  quality_spike, keyup_context, encryption_context, silent_context, spike_context, seconds,
}

-- `_cooldown_ok`
unfoldable pub cooldown_ok : Evaluator → Rule → ℕ → Bool
unfolding get seconds
cooldown_ok e rule when = elim (get e.last_fired rule.id) [
  | none ↦ true
  | some last ↦ leb (last + seconds rule.cooldown_seconds) when
]

-- `setdefault(rule.id, {})`
unfoldable pub last_keys : Evaluator → Rule → Dict ℕ (ℕ × ℕ)
unfolding get
last_keys e rule = elim (get e.last_call_key rule.id) [ none ↦ [] | some keys ↦ keys ]

-- `last_keys.get(ev.slot) == key`
unfoldable pub same_key : Option (ℕ × ℕ) → ℕ × ℕ → Bool
same_key none key = false
same_key (some (src, tgt)) key = src == key.0 && tgt == key.1

unfoldable pub set_last_keys : Evaluator → Rule → Dict ℕ (ℕ × ℕ) → Evaluator
unfolding put
set_last_keys e rule keys = record e { last_call_key = put e.last_call_key rule.id keys }

unfoldable pub firing_of : Rule → ℕ → Context → AlertFiring
firing_of rule when context = record {
  rule_id = rule.id;
  rule_name = rule.name;
  fired_at = when;
  context = context;
}

-- the branch of a `RadioKeyupRule` and a voice call
unfoldable pub evaluate_keyup :
    Evaluator → Rule → List ℕ → VoiceCallEvent → ℕ → Evaluator × Option AlertFiring
unfolding cooldown_ok last_keys same_key set_last_keys firing_of contains get put
evaluate_keyup e rule radio_ids ev when =
    let known = last_keys e rule in
    if not (contains radio_ids ev.src)
    then (e, none)
    else if same_key (get known ev.slot) (ev.src, ev.tgt)
    then (set_last_keys e rule known, none)
    else (
      set_last_keys e rule (put known ev.slot (ev.src, ev.tgt)),
      if cooldown_ok e rule when
          then some (firing_of rule when (keyup_context ev.src ev.tgt ev.slot))
          else none,
    )

-- `rule.tg_ids and (tg is None or tg not in rule.tg_ids)`
unfoldable pub tg_filtered : List ℕ → Option (ℕ × ℕ) → Bool
unfolding contains
tg_filtered [] call = false
tg_filtered (t ∷ tg_ids) none = true
tg_filtered (t ∷ tg_ids) (some (src, tg)) = not (contains (t ∷ tg_ids) tg)

-- the branch of an `EncryptionRule` and an encryption event
unfoldable pub evaluate_encryption :
    Evaluator → Rule → List ℕ → EncryptionEvent → ℕ → Option AlertFiring
unfolding cooldown_ok tg_filtered firing_of get
evaluate_encryption e rule tg_ids ev when =
    let call = get e.slot_call ev.slot in
    if tg_filtered tg_ids call
    then none
    else if cooldown_ok e rule when
    then some (firing_of rule when (encryption_context ev.slot call ev.flco ev.fid))
    else none

-- `_evaluate_event`
unfoldable pub evaluate_kind :
    Evaluator → Rule → RuleKind → Body → ℕ → Evaluator × Option AlertFiring
unfolding evaluate_keyup evaluate_encryption
evaluate_kind e rule (radio_keyup radio_ids) (voice_call v) when =
    evaluate_keyup e rule radio_ids v when
evaluate_kind e rule (encryption_rule tg_ids) (encryption x) when =
    (e, evaluate_encryption e rule tg_ids x when)
evaluate_kind e rule kind body when = (e, none)

unfoldable pub evaluate_event : Evaluator → Rule → Event → Evaluator × Option AlertFiring
unfolding evaluate_kind
evaluate_event e rule ev = evaluate_kind e rule rule.kind ev.body ev.timestamp

-- the branch of a `CcSilentRule`
unfoldable pub evaluate_silence : Evaluator → Rule → ℕ → ℕ → Evaluator × Option AlertFiring
unfolding firing_of contains seconds
evaluate_silence e rule timeout_seconds now =
    if contains e.cc_silent_fired rule.id then (e, none) else elim e.last_cc_at [
      | none ↦ (e, none)
      | some last ↦ if ltb now (last + seconds timeout_seconds) then (e, none) else (
        record e { cc_silent_fired = rule.id ∷ e.cc_silent_fired },
        some (firing_of rule now (silent_context (now - last) last)),
      )
    ]

-- the branch of a `QualitySpikeRule`; `none` is a query that fails, or no event log to ask
unfoldable pub evaluate_quality : Option Quality → Evaluator → Rule → ℕ → ℕ → ℕ → Option AlertFiring
unfolding cooldown_ok firing_of
evaluate_quality none e rule window_seconds rate_threshold now = none
evaluate_quality (some q) e rule window_seconds rate_threshold now =
    if not (cooldown_ok e rule now) || (q.errors == 0 || ltb q.rate rate_threshold)
    then none
    else some (firing_of rule now (spike_context q.rate q.errors q.decodes window_seconds))

-- `_evaluate_tick`, with the event log's answer for each length of window
unfoldable pub evaluate_tick_kind :
    (ℕ → Option Quality) → Evaluator → Rule → RuleKind → ℕ → Evaluator × Option AlertFiring
unfolding evaluate_silence evaluate_quality
evaluate_tick_kind quality e rule (cc_silent timeout_seconds) now =
    evaluate_silence e rule timeout_seconds now
evaluate_tick_kind quality e rule (quality_spike window_seconds rate_threshold) now =
    (e, evaluate_quality (quality window_seconds) e rule window_seconds rate_threshold now)
evaluate_tick_kind quality e rule kind now = (e, none)

unfoldable pub evaluate_tick :
    (ℕ → Option Quality) → Evaluator → Rule → ℕ → Evaluator × Option AlertFiring
unfolding evaluate_tick_kind
evaluate_tick quality e rule now = evaluate_tick_kind quality e rule rule.kind now
