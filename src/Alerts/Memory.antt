-- ===== src/Alerts/Memory.antt =====
-- backend/alerts.py: the origin of a firing, the removal of a rule, and the memory of keyups.
use dmr_decrep_shahar.Prelude.{
  nat_key, string_key, ℕ, ◌<◌, String, Bool, true, false, not, Option, none, some, List, [], ◌∷◌,
  map, length, ◌==◌, ◌≡◌, refl, sym, ap, ◌∙◌, subst, arith, ◌⊎◌, inl, inr, Member, Member-append,
  Member-drop, Distinct, filter, Member-filter, Member-map_inv, length-filter-le,
}
use dmr_decrep_shahar.Dict.{Dict, get, keys}
use dmr_decrep_shahar.Dict.Laws.{get-del_self}
use dmr_decrep_shahar.Models.{Event}
use dmr_decrep_shahar.Alerts.Data.{Rule, AlertFiring, Evaluator}
use dmr_decrep_shahar.Alerts.Rules.{record_firing, append_bounded, same_id, discard, remove_rule}
use dmr_decrep_shahar.Alerts.Evaluate.{evaluate_event}
use dmr_decrep_shahar.Alerts.Run.{record_if, note_event, on_event}
use dmr_decrep_shahar.Alerts.Loop.{
  run_rules-induction, SameLog, FiredBy, evaluate_event-SameLog, evaluate_event-FiredBy,
}
use dmr_decrep_shahar.Alerts.Frame.{note_event-SameLog, ≡-same_id}

-- a firing of an enabled rule at a moment
abbrev pub Origin : List Rule → ℕ → AlertFiring → Type 0
Origin rules when f =
    (r : Rule) × Member r rules × (r.enabled ≡ true) × (f.rule_id ≡ r.id) × (f.fired_at ≡ when)

record_if-Member :
    (e : Evaluator) (r : Rule) (when : ℕ) (out : Evaluator × Option AlertFiring) (f : AlertFiring)
    → SameLog e out.0
    → ((f : AlertFiring) → out.1 ≡ some f → FiredBy e r when f)
    → Member f (record_if out).firings
    → Member f e.firings ⊎ ((f.rule_id ≡ r.id) × (f.fired_at ≡ when))
unfolding record_if record_firing append_bounded
record_if-Member e r when (e', none) f log fired m = inl (subst (Member f) (log.1) m)
record_if-Member e r when (e', some g) f log fired m =
    elim (Member-append f e'.firings (g ∷ []) (Member-drop f _ _ m)) [
      | inl old ↦ inl (subst (Member f) (log.1) old)
      | inr (inl q) ↦
          let by = fired g refl in
          inr (
            (ap (λ (x : AlertFiring). x.rule_id) q ∙ by.0),
            (ap (λ (x : AlertFiring). x.fired_at) q ∙ by.1),
          )
      | inr (inr q) ↦ elim q [ ]
    ]

-- An event adds only firings of rules that are in the set and enabled, at the time of the event.
pub on_event-Origin :
    (e : Evaluator) (ev : Event) (f : AlertFiring)
    → Member f (on_event e ev).firings
    → Member f e.firings ⊎ Origin e.rules ev.timestamp f
unfolding on_event
on_event-Origin e ev f m =
    let noted = note_event e ev in
    let log = note_event-SameLog e ev in
    run_rules-induction
      (λ a. Member f a.firings → Member f e.firings ⊎ Origin e.rules ev.timestamp f)
      (λ e rule. evaluate_event e rule ev) noted noted.rules
      (λ a r in_rules on h n.
        elim (record_if-Member a r ev.timestamp (evaluate_event a r ev) f
          (evaluate_event-SameLog a r ev) (evaluate_event-FiredBy a r ev) n) [
            | inl old ↦ h old
            | inr (by, at) ↦ inr (r, (subst (Member r) (log.0) in_rules), on, by, at)
          ])
      (λ n. inl (subst (Member f) (log.1) n)) m

length-filter-lt {ℓ} :
    {A : Type ℓ} (p : A → Bool) (xs : List A) (x : A)
    → Member x xs
    → p x ≡ false
    → length (filter p xs) < length xs
length-filter-lt p (y ∷ ys) x (inl e) h =
    let out : p y ≡ false = rw (← e) h in rw out (omega (arith, length-filter-le p ys))
length-filter-lt p (y ∷ ys) x (inr m) h = ground (arith, length-filter-lt p ys x m h)
length-filter-lt p [] x m h = elim m [ ]

discard-Member : (xs : List String) (x : String) → ¬ Member x (discard xs x)
unfolding discard
discard-Member xs x m = let (_, other) = Member-filter x _ xs m in cc (≡-same_id x x refl, other)

remove_rule-rules :
    (rules : List Rule) (id : String)
    → ¬ Member id (map (λ r. r.id) (filter (λ r. not (same_id r.id id)) rules))
remove_rule-rules rules id m =
    let (r, inside, e) = Member-map_inv (λ (r : Rule). r.id) id _ m in
    let (_, other) = Member-filter r _ rules inside in cc (≡-same_id r.id id (sym e), other)

-- Removing a rule that is in the set says so, and leaves no rule with the id, no cooldown, no memory
-- of keyups and no latch, so that a new rule with the id starts afresh.
pub remove_rule-forgets :
    (e : Evaluator) (id : String)
    → Distinct (keys e.last_fired)
    → Distinct (keys e.last_call_key)
    → Member id (map (λ r. r.id) e.rules)
    → ((remove_rule e id).1 ≡ true)
      × (¬ Member id (map (λ r. r.id) (remove_rule e id).0.rules))
      × (get (remove_rule e id).0.last_fired id ≡ none)
      × (get (remove_rule e id).0.last_call_key id ≡ none)
      × (¬ Member id (remove_rule e id).0.cc_silent_fired)
unfolding remove_rule
remove_rule-forgets e id d k m =
    let (r, inside, p) = Member-map_inv (λ (r : Rule). r.id) id e.rules m in
    let fewer =
      length-filter-lt (λ r. not (same_id r.id id)) e.rules r inside
        (ap not (≡-same_id r.id id (sym p))) in
    let removed : (length (filter (λ r. not (same_id r.id id)) e.rules) == length e.rules) ≡ false =
      ground (arith, fewer) in
    rw removed (
      refl,
      remove_rule-rules e.rules id,
      get-del_self e.last_fired id d,
      get-del_self e.last_call_key id k,
      discard-Member e.cc_silent_fired id,
    )
