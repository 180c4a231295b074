-- ===== src/Alerts/Run.antt =====
-- backend/alerts.py: the two hooks, which run every enabled rule on an event or on a tick.
use dmr_decrep_shahar.Prelude.{
  nat_key, ℕ, Bool, true, false, Option, none, some, List, [], ◌∷◌, ◌==◌, if◌then◌else◌,
}
use dmr_decrep_shahar.Dict.{put}
use dmr_decrep_shahar.Models.{Event, Body, voice_call, site_info, lsn_status, channel_status}
use dmr_decrep_shahar.Alerts.Data.{Rule, AlertFiring, Evaluator, Quality}
use dmr_decrep_shahar.Alerts.Rules.{record_firing}
use dmr_decrep_shahar.Alerts.Evaluate.{evaluate_event, evaluate_tick}

-- the side caches, filled before any rule runs
unfoldable pub note_call : Evaluator → Body → Evaluator
unfolding put
note_call e (voice_call v) =
    if v.src == 0 then e else record e { slot_call = put e.slot_call v.slot (v.src, v.tgt) }
note_call e body = e

unfoldable pub is_heartbeat : Body → Bool
is_heartbeat (site_info s) = true
is_heartbeat (lsn_status states) = true
is_heartbeat (channel_status c) = true
is_heartbeat body = false

unfoldable pub note_event : Evaluator → Event → Evaluator
unfolding note_call is_heartbeat
note_event e ev =
    let noted = note_call e ev.body in
    if is_heartbeat ev.body
    then record noted { last_cc_at = some ev.timestamp; cc_silent_fired = [] }
    else noted

-- `if firing is not None: self._record(firing)`
unfoldable pub record_if : Evaluator × Option AlertFiring → Evaluator
unfolding record_firing
record_if (e, none) = e
record_if (e, some firing) = record_firing e firing

-- the loop over the rules
unfoldable pub run_rules :
    (Evaluator → Rule → Evaluator × Option AlertFiring) → Evaluator → List Rule → Evaluator
unfolding record_if
run_rules evaluate e [] = e
run_rules evaluate e (rule ∷ rules) =
    run_rules evaluate (if rule.enabled then record_if (evaluate e rule) else e) rules

-- the two hooks, each in one step: the source gives up the lock after each rule
unfoldable pub on_event : Evaluator → Event → Evaluator
unfolding note_event run_rules evaluate_event
on_event e ev =
    let noted = note_event e ev in run_rules (λ e rule. evaluate_event e rule ev) noted noted.rules

unfoldable pub tick : (ℕ → Option Quality) → Evaluator → ℕ → Evaluator
unfolding run_rules evaluate_tick
tick quality e now = run_rules (λ e rule. evaluate_tick quality e rule now) e e.rules

-- what an evaluator takes over its life, in the order it takes it
pub data Input : Type 0 where
  event : Event → Input
  ticked : (ℕ → Option Quality) → ℕ → Input

unfoldable pub step : Evaluator → Input → Evaluator
unfolding on_event tick
step e (event ev) = on_event e ev
step e (ticked quality now) = tick quality e now

unfoldable pub run : Evaluator → List Input → Evaluator
unfolding step
run e [] = e
run e (input ∷ inputs) = run (step e input) inputs
