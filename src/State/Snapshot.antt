-- ===== src/State/Snapshot.antt =====
-- backend/state.py: `__init__`, `snapshot` and `load_snapshot`. The clock is an argument. Reading a file
-- and parsing it as JSON are outside the model: `load_snapshot` takes what each of the two candidate
-- files holds, or nothing where the file is missing, empty or does not parse.
pub mod Broadcast
pub mod Restore
use dmr_decrep_shahar.Prelude.{
  nat_key, ℕ, ◌+◌, Bool, true, false, not, ◌&&◌, Option, none, some, List, [], ◌∷◌, map, length,
  take, ltb, leb, if◌then◌else◌,
}
use dmr_decrep_shahar.Dict.{Dict, values, put, from_entries}
use dmr_decrep_shahar.Sort.{sorted}
use dmr_decrep_shahar.State.Data.{Radio, Position, DashboardSnapshot, StateManager}
use dmr_decrep_shahar.State.Radios.{evict_radios}
use dmr_decrep_shahar.State.Apply.{no_system, no_quality}

-- `__init__`
unfoldable pub init : ℕ → ℕ → ℕ → ℕ → ℕ → StateManager
init call_idle_timeout position_history_length broadcast_max_radios broadcast_trail_max_age
      max_radios =
    record {
      call_idle_timeout = call_idle_timeout;
      position_history_length = position_history_length;
      broadcast_max_radios = broadcast_max_radios;
      broadcast_trail_max_age = broadcast_trail_max_age;
      max_radios = max_radios;
      radios = [];
      active_calls = [];
      system = no_system;
      quality = no_quality;
      last_event_at = none;
      cur_channel_label = none;
      cur_frequency = none;
      radios_evicted_total = 0;
      notices = [];
    }

-- `self._last_event_at or datetime.now()`
unfoldable pub reference_now : StateManager → ℕ → ℕ
reference_now s wall = elim s.last_event_at [ none ↦ wall | some t ↦ t ]

-- the order of `sorted(..., key=lambda r: r.last_seen, reverse=True)`
abbrev pub seen_after : Radio → Radio → Bool
seen_after a b = leb b.last_seen a.last_seen

-- the radios of a broadcast, before their trails are looked at
unfoldable pub broadcast_source : StateManager → Dict ℕ Radio
broadcast_source s =
    if ltb s.broadcast_max_radios (length s.radios)
    then from_entries
        (map (λ r. (r.id, r)) (take s.broadcast_max_radios (sorted seen_after (values s.radios))))
    else s.radios

unfoldable pub trail_fresh : StateManager → ℕ → Radio → Bool
trail_fresh s now r = elim r.last_position [
  | none ↦ false
  | some p ↦ leb now (p.at + s.broadcast_trail_max_age)
]

abbrev pub has_trail : Radio → Bool
has_trail r = elim r.position_history [ [] ↦ false | _ ↦ true ]

unfoldable pub trim_radio : StateManager → ℕ → Radio → Radio
unfolding trail_fresh
trim_radio s now r =
    if has_trail r && not (trail_fresh s now r) then record r { position_history = [] } else r

unfoldable pub broadcast_radios : StateManager → ℕ → Dict ℕ Radio
unfolding broadcast_source trim_radio
broadcast_radios s now = from_entries (map (λ e. (e.0, trim_radio s now e.1)) (broadcast_source s))

unfoldable pub snapshot : StateManager → Bool → ℕ → DashboardSnapshot
unfolding reference_now broadcast_radios
snapshot s trim wall = record {
  radios = if not trim then s.radios else broadcast_radios s (reference_now s wall);
  active_calls = s.active_calls;
  system = s.system;
  quality = s.quality;
  generated_at = reference_now s wall;
  radios_total = length s.radios;
  radios_evicted_total = s.radios_evicted_total;
}

unfoldable pub restore : StateManager → DashboardSnapshot → StateManager
unfolding evict_radios
restore s snap =
    let s' = record s {
      radios = snap.radios;
      system = snap.system;
      quality = snap.quality;
      radios_evicted_total = snap.radios_evicted_total;
    } in
    if ltb s'.max_radios (length s'.radios) then evict_radios s' else s'

-- the loop over the file and its backup
unfoldable pub load_snapshot : StateManager → List (Option DashboardSnapshot) → StateManager × Bool
unfolding restore
load_snapshot s [] = (s, false)
load_snapshot s (none ∷ rest) = load_snapshot s rest
load_snapshot s (some snap ∷ rest) = (restore s snap, true)
