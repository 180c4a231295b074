-- ===== src/Alerts/Rules.antt =====
-- backend/alerts.py: construction, the operations on the rules, the log of firings, the subscribers.
use dmr_decrep_shahar.Prelude.{
  nat_key, string_key, ℕ, ◌-◌, String, Bool, true, false, not, Option, none, some, List, [], ◌∷◌,
  ◌++◌, reverse, length, drop, filter, ltb, ◌==◌, if◌then◌else◌, ite, String_discrete,
}
use dmr_decrep_shahar.Dict.{Dict, put, del}
use dmr_decrep_shahar.Alerts.Data.{Rule, AlertFiring, Evaluator, queue_size}

-- `__init__` without a file
unfoldable pub new_evaluator : ℕ → Evaluator
new_evaluator firings_capacity = record {
  rules = [];
  firings = [];
  firings_capacity = firings_capacity;
  subscribers = [];
  last_fired = [];
  last_call_key = [];
  slot_call = [];
  last_cc_at = none;
  cc_silent_fired = [];
}

unfoldable pub add_rule : Evaluator → Rule → Evaluator
add_rule e rule = record e { rules = e.rules ++ rule ∷ [] }

-- `x == y` for rule ids
unfoldable pub same_id : String → String → Bool
same_id x y = ite (String_discrete x y) true false

-- `s.discard(x)` on a set
unfoldable pub discard : List String → String → List String
unfolding same_id
discard xs x = filter (λ y. not (same_id y x)) xs

-- with whether a rule was removed
unfoldable pub remove_rule : Evaluator → String → Evaluator × Bool
unfolding same_id del discard
remove_rule e rule_id =
    let rules = filter (λ r. not (same_id r.id rule_id)) e.rules in
    if length rules == length e.rules then (record e { rules = rules }, false) else (
      record e {
        rules = rules;
        last_fired = del e.last_fired rule_id;
        last_call_key = del e.last_call_key rule_id;
        cc_silent_fired = discard e.cc_silent_fired rule_id;
      },
      true,
    )

-- the first rule with the id changes; `none` if there is none
unfoldable pub enable_first : List Rule → String → Bool → Option (List Rule)
enable_first [] rule_id enabled = none
enable_first (r ∷ rules) rule_id enabled =
    ite (String_discrete r.id rule_id) (some (record r { enabled = enabled } ∷ rules))
      (elim (enable_first rules rule_id enabled) [ none ↦ none | some rest ↦ some (r ∷ rest) ])

unfoldable pub set_enabled : Evaluator → String → Bool → Evaluator × Bool
unfolding enable_first
set_enabled e rule_id enabled = elim (enable_first e.rules rule_id enabled) [
  | none ↦ (e, false)
  | some rules ↦ (record e { rules = rules }, true)
]

-- `snap[-limit:][::-1]`; a limit of zero takes all, as `snap[-0:]` does
unfoldable pub recent_firings : Evaluator → ℕ → List AlertFiring
recent_firings e limit =
    reverse (if limit == 0 then e.firings else drop (length e.firings - limit) e.firings)

unfoldable pub subscribe : Evaluator → ℕ → Evaluator
unfolding put
subscribe e q = record e { subscribers = put e.subscribers q [] }

unfoldable pub unsubscribe : Evaluator → ℕ → Evaluator
unfolding del
unsubscribe e q = record e { subscribers = del e.subscribers q }

-- `append` on a deque of at most `capacity` elements
unfoldable pub append_bounded {ℓ} : {A : Type ℓ} → ℕ → List A → A → List A
append_bounded capacity xs x = let all = xs ++ x ∷ [] in drop (length all - capacity) all

-- `put_nowait` on each queue; a full queue is dropped from the subscribers
unfoldable pub fan_out : Dict ℕ (List AlertFiring) → AlertFiring → Dict ℕ (List AlertFiring)
fan_out [] firing = []
fan_out ((q, queue) ∷ subs) firing =
    let rest = fan_out subs firing in
    if ltb (length queue) queue_size then (q, queue ++ firing ∷ []) ∷ rest else rest

-- `_record`
unfoldable pub record_firing : Evaluator → AlertFiring → Evaluator
unfolding put append_bounded fan_out
record_firing e firing = record e {
  last_fired = put e.last_fired firing.rule_id firing.fired_at;
  firings = append_bounded e.firings_capacity e.firings firing;
  subscribers = fan_out e.subscribers firing;
}
