-- ===== src/Tests/Scheduler.antt =====
-- backend/rf/scheduler.py: a control channel and two traffic channels under a cap of two decoders.
use dmr_decrep_shahar.Prelude.{
  nat_key, string_key, ℕ, ◌≤◌, max, String, true, false, none, some, [], ◌∷◌, ◌≡◌, refl, sym, subst,
  arith, inl, inr, ◌⊎◌, Member, String_discrete, ℕ_discrete, contains, contains-Member, length,
}
use dmr_decrep_shahar.Dict.{get}
use dmr_decrep_shahar.Sort.{sorted}
use dmr_decrep_shahar.Models.{Event, lsn_status}
use dmr_decrep_shahar.Text.{string_leb}
use dmr_decrep_shahar.Scheduler.{
  Scheduler, add, add_all, collect_hang, within_hang, newest_first, fill, active_at, active_labels,
  or_else, reference_now, on_event,
}
use dmr_decrep_shahar.Scheduler.Laws.{SeenBy, on_event-SeenBy, on_event-grant}
use dmr_decrep_shahar.Scheduler.Energy.{reference_now-latest}
use dmr_decrep_shahar.Scheduler.Active.{Heard, active_labels-Heard, active_labels-control}
use dmr_decrep_shahar.Scheduler.Budget.{length-active_labels, active_labels-freshest}

-- activity hangs on for four seconds
abbrev site : Scheduler
site = record {
  hang = 4_000_000;
  max_active = some 2;
  energy_threshold = 10;
  last_active = ("A", 6_000_000) ∷ ("B", 7_000_000) ∷ ("C", 1_000_000) ∷ [];
  control = "CC" ∷ [];
  lsn_to_label = (1, "CC") ∷ (2, "A") ∷ (3, "B") ∷ [];
}

abbrev grant : Event
grant = record {
  timestamp = 8_000_000;
  raw_line = "";
  schema_version = 1;
  frequency = none;
  channel_label = none;
  body = lsn_status (record { lsn = 2; state = "Active"; tg = none } ∷ []);
}

active : active_labels site (some 8_000_000) 0 ≡ "CC" ∷ "B" ∷ []
unfolding active_labels active_at or_else within_hang collect_hang sorted newest_first string_leb
    add_all add fill contains String_discrete
active = refl

on_event-grant_example : SeenBy (on_event site grant none).last_active "A" 8_000_000
unfolding get ℕ_discrete or_else
on_event-grant_example =
    on_event-grant site grant none 2 "A"
      (record { lsn = 2; state = "Active"; tg = none }, inl refl, refl, refl) refl

on_event-SeenBy_example : SeenBy (on_event site grant none).last_active "B" 6_500_000
unfolding get String_discrete
on_event-SeenBy_example =
    on_event-SeenBy site grant none "B" 6_500_000 (7_000_000, refl, omega arith)

reference_now-latest_example : 6_000_000 ≤ reference_now site.last_active 0
reference_now-latest_example = reference_now-latest site.last_active 0 6_000_000 (inl refl)

active_labels-Heard_example : Member "B" site.control ⊎ Heard site 8_000_000 "B"
unfolding or_else
active_labels-Heard_example =
    active_labels-Heard site (some 8_000_000) 0 "B"
      (subst (Member "B") (sym active) (inr (inl refl)))

active_labels-control_example : Member "CC" (active_labels site none 0)
active_labels-control_example = active_labels-control site none 0 "CC" (inl refl)

length-active_labels_example : length (active_labels site none 0) ≤ 2
length-active_labels_example = length-active_labels site none 0 2 refl

A_is_left_out : ¬ Member {A = String} "A" ("CC" ∷ "B" ∷ [])
unfolding contains String_discrete
A_is_left_out m = let found : false ≡ true = contains-Member ("CC" ∷ "B" ∷ []) "A" m in cc

active_labels-freshest_example :
    (n : ℕ) × (site.max_active ≡ some n)
    × (max n 1 ≤ length (active_labels site (some 8_000_000) 0))
    × (Member "B" site.control ⊎ ((u : ℕ) × Member ("B", u) site.last_active × (6_000_000 ≤ u)))
unfolding or_else
active_labels-freshest_example =
    active_labels-freshest site (some 8_000_000) 0 6_000_000 "A" "B" (inl refl) (omega arith)
      (λ m. A_is_left_out (subst (Member "A") active m))
      (subst (Member "B") (sym active) (inr (inl refl)))
