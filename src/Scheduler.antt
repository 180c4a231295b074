-- ===== src/Scheduler.antt =====
-- backend/rf/scheduler.py: which channels deserve a live decoder. Times are microseconds and powers
-- whole units of linear power. A set of labels is a list that grows by `add` alone.
pub mod Laws
pub mod Energy
pub mod Active
pub mod Budget
use dmr_decrep_shahar.Prelude.{
  nat_key, string_key, ℕ, ◌-◌, ◌≤◌, max, String, Bool, true, false, Option, none, some, List, [],
  ◌∷◌, ◌++◌, map, length, ltb, leb, contains, if◌then◌else◌, ite, String_discrete,
}
use dmr_decrep_shahar.Text.{string_leb}
use dmr_decrep_shahar.Dict.{Dict, get, put, keys, values}
use dmr_decrep_shahar.Sort.{sorted}
use dmr_decrep_shahar.Models.{
  Event, Body, LsnState, voice_call, data_header, preamble_csbk, lrrp_position, lrrp_request,
  lsn_status, bank_call,
}
use dmr_decrep_shahar.Channels.{ChannelPlan, lsn_map, control_channels}

-- the fields of a `TrafficScheduler`; `plan` is read only when it is built
pub record Scheduler : Type 0 where
  pub hang : ℕ
  pub max_active : Option ℕ
  pub energy_threshold : ℕ
  pub last_active : Dict String ℕ
  pub control : List String
  pub lsn_to_label : Dict ℕ String

-- `s.add(x)` on a set
unfoldable pub add : List String → String → List String
add xs x = if contains xs x then xs else xs ++ x ∷ []

unfoldable pub add_all : List String → List String → List String
unfolding add
add_all xs [] = xs
add_all xs (y ∷ ys) = add_all (add xs y) ys

-- `__init__`
unfoldable pub new_scheduler : ChannelPlan → ℕ → Option ℕ → ℕ → Scheduler
unfolding add_all control_channels lsn_map
new_scheduler plan hang max_active energy_threshold = record {
  hang = hang;
  max_active = max_active;
  energy_threshold = energy_threshold;
  last_active = [];
  control = add_all [] (map (λ c. c.label) (control_channels plan));
  lsn_to_label = lsn_map (λ c. c.label) [] plan;
}

-- `_bump`
unfoldable pub bump : Dict String ℕ → Option String → ℕ → Dict String ℕ
unfolding get put
bump last none now = last
bump last (some label) now = elim (get last label) [
  | none ↦ put last label now
  | some prev ↦ if ltb prev now then put last label now else last
]

-- membership of `_TRAFFIC_TYPES`
unfoldable pub is_traffic : Body → Bool
is_traffic (voice_call v) = true
is_traffic (data_header d) = true
is_traffic (preamble_csbk p) = true
is_traffic (lrrp_position p) = true
is_traffic (lrrp_request r) = true
is_traffic _ = false

unfoldable pub bump_states : Dict ℕ String → Dict String ℕ → List LsnState → ℕ → Dict String ℕ
unfolding bump get
bump_states labels last [] ts = last
bump_states labels last (s ∷ states) ts =
    bump_states labels
      (ite (String_discrete s.state "Active") (bump last (get labels s.lsn) ts) last) states ts

unfoldable pub bump_bank : Dict ℕ String → Dict String ℕ → List ℕ → ℕ → Dict String ℕ
unfolding bump get
bump_bank labels last [] ts = last
bump_bank labels last (lsn ∷ lsns) ts = bump_bank labels (bump last (get labels lsn) ts) lsns ts

-- the grants of the control channel
unfoldable pub bump_grants : Dict ℕ String → Dict String ℕ → Body → ℕ → Dict String ℕ
unfolding bump_states bump_bank
bump_grants labels last (lsn_status states) ts = bump_states labels last states ts
bump_grants labels last (bank_call b) ts = bump_bank labels last (keys b.lsn_to_tg) ts
bump_grants labels last _ ts = last

-- `now or ...`
unfoldable pub or_else : Option ℕ → ℕ → ℕ
or_else none t = t
or_else (some now) t = now

unfoldable pub on_event : Scheduler → Event → Option ℕ → Scheduler
unfolding is_traffic bump bump_grants or_else
on_event s ev now =
    let ts = or_else now ev.timestamp in
    let heard =
      if is_traffic ev.body then bump s.last_active ev.channel_label ts else s.last_active in
    record s { last_active = bump_grants s.lsn_to_label heard ev.body ts }

unfoldable pub bump_powers : ℕ → Dict String ℕ → Dict String ℕ → ℕ → Dict String ℕ
unfolding bump
bump_powers threshold last [] ts = last
bump_powers threshold last ((label, p) ∷ powers) ts =
    bump_powers threshold (if leb threshold p then bump last (some label) ts else last) powers ts

unfoldable pub update_energy : Scheduler → Dict String ℕ → ℕ → Scheduler
unfolding bump_powers
update_energy s powers ts = record s {
  last_active = bump_powers s.energy_threshold s.last_active powers ts;
}

-- `max` of a list that is not empty, from its first element
unfoldable pub max_value : ℕ → List ℕ → ℕ
max_value m [] = m
max_value m (t ∷ ts) = max_value (max m t) ts

-- `_reference_now`, with the wall clock
unfoldable pub reference_now : Dict String ℕ → ℕ → ℕ
unfolding max_value
reference_now [] wall = wall
reference_now ((label, t) ∷ last) wall = max_value t (values last)

-- the order of the pairs of a time and a label in `sort(reverse=True)`
unfoldable pub newest_first : ℕ × String → ℕ × String → Bool
unfolding string_leb
newest_first (t, l) (u, m) = if ltb u t then true else if ltb t u then false else string_leb m l

unfoldable pub collect_hang : ℕ → ℕ → Dict String ℕ → List (ℕ × String)
collect_hang hang ts [] = []
collect_hang hang ts ((label, t) ∷ last) =
    let rest = collect_hang hang ts last in if leb (ts - t) hang then (t, label) ∷ rest else rest

unfoldable pub within_hang : Scheduler → ℕ → List (ℕ × String)
unfolding collect_hang sorted newest_first
within_hang s ts = sorted newest_first (collect_hang s.hang ts s.last_active)

-- the loop that fills the remaining budget
unfoldable pub fill : ℕ → List String → List (ℕ × String) → List String
unfolding add
fill budget kept [] = kept
fill budget kept ((t, label) ∷ fresh) =
    if leb budget (length kept) then kept else fill budget (add kept label) fresh

unfoldable pub active_at : Scheduler → ℕ → List String
unfolding add_all within_hang fill
active_at s ts =
    let fresh = within_hang s ts in
    let active = add_all s.control (map (λ e. e.1) fresh) in
    elim s.max_active [
      | none ↦ active
      | some n ↦
          if ltb n (length active) then fill (max n (length s.control)) s.control fresh else active
    ]

unfoldable pub active_labels : Scheduler → Option ℕ → ℕ → List String
unfolding active_at or_else reference_now
active_labels s now wall = active_at s (or_else now (reference_now s.last_active wall))
