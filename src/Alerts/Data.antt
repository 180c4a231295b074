-- ===== src/Alerts/Data.antt =====
-- backend/alerts.py: rules, firings, and the state of the evaluator. Times are microseconds, rates
-- millionths. The text of a firing is made from its context and is left out, and so is the file of
-- the rules.
use dmr_decrep_shahar.Prelude.{ℕ, String, Bool, Option, List, ◌*◌}
use dmr_decrep_shahar.Dict.{Dict}

-- what each rule class adds to `_RuleBase`
pub data RuleKind : Type 0 where
  radio_keyup : (radio_ids : List ℕ) → RuleKind
  encryption_rule : (tg_ids : List ℕ) → RuleKind
  cc_silent : (timeout_seconds : ℕ) → RuleKind
  quality_spike : (window_seconds rate_threshold : ℕ) → RuleKind

pub record Rule : Type 0 where
  pub id : String
  pub name : String
  pub enabled : Bool
  pub cooldown_seconds : ℕ
  pub created_at : ℕ
  pub kind : RuleKind

-- `context` of a firing, by the kind of its rule
pub data Context : Type 0 where
  keyup_context : (src tgt slot : ℕ) → Context
  encryption_context : (slot : ℕ) (call : Option (ℕ × ℕ)) (flco fid : String) → Context
  silent_context : (silent_for last_cc_at : ℕ) → Context
  spike_context : (rate errors decodes window_seconds : ℕ) → Context

pub record AlertFiring : Type 0 where
  pub rule_id : String
  pub rule_name : String
  pub fired_at : ℕ
  pub context : Context

-- what the evaluator reads of the answer of `quality_ratios_over_window`
pub record Quality : Type 0 where
  pub rate : ℕ
  pub errors : ℕ
  pub decodes : ℕ

-- an `Evaluator`; `firings` runs from the oldest to the newest, a subscriber's queue likewise, and
-- `cc_silent_fired` is a set
pub record Evaluator : Type 0 where
  pub rules : List Rule
  pub firings : List AlertFiring
  pub firings_capacity : ℕ
  pub subscribers : Dict ℕ (List AlertFiring)
  pub last_fired : Dict String ℕ
  pub last_call_key : Dict String (Dict ℕ (ℕ × ℕ))
  pub slot_call : Dict ℕ (ℕ × ℕ)
  pub last_cc_at : Option ℕ
  pub cc_silent_fired : List String

-- seconds in microseconds
unfoldable pub seconds : ℕ → ℕ
seconds n = n * 1_000_000

-- `maxsize` of a subscriber's queue
abbrev pub queue_size : ℕ
queue_size = 50
