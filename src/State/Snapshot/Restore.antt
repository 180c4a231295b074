-- ===== src/State/Snapshot/Restore.antt =====
-- backend/state.py: `load_snapshot` on what `snapshot` saved, and on too many radios.
use dmr_decrep_shahar.Prelude.{
  nat_key, ℕ, ◌+◌, ◌≤◌, true, false, Option, none, some, List, [], ◌∷◌, ◌++◌, length, ltb, ltb→ge,
  ltb→lt, ◌≡◌, refl, arith, inl, inr, Distinct, All, Bool-cases,
}
use dmr_decrep_shahar.Dict.{keys}
use dmr_decrep_shahar.State.Data.{DashboardSnapshot, StateManager}
use dmr_decrep_shahar.State.Radios.Eviction.{evict_radios-counts}
use dmr_decrep_shahar.State.Radios.Touch.{
  RadioIsOk, RadiosAreOk, Named-of, evict_radios-RadiosAreOk,
}
use dmr_decrep_shahar.State.Snapshot.{snapshot, restore, load_snapshot}

-- Loading the untrimmed snapshot of a manager, from the file or, if that is unreadable, from its
-- backup, brings back its radios, system status, counters and number of evicted radios, into a
-- manager whose cap they fit; the calls in progress of the loading manager stay as they are.
pub load_snapshot-snapshot :
    (s t : StateManager) (wall : ℕ) (unreadable : List (Option DashboardSnapshot))
    (rest : List (Option DashboardSnapshot))
    → All (λ o. o ≡ none) unreadable
    → length s.radios ≤ t.max_radios
    → load_snapshot t (unreadable ++ some (snapshot s false wall) ∷ rest) ≡ (
      record t {
        radios = s.radios;
        system = s.system;
        quality = s.quality;
        radios_evicted_total = s.radios_evicted_total;
      },
      true,
    )
unfolding load_snapshot snapshot
load_snapshot-snapshot s t wall [] rest bad fits =
    elim (Bool-cases (ltb t.max_radios (length s.radios))) [
      | inl e ↦ absurd (omega (arith, ltb→lt _ _ e))
      | inr e ↦ rw e
    ]
load_snapshot-snapshot s t wall (o ∷ unreadable) rest bad fits =
    rw (bad.0) (load_snapshot-snapshot s t wall unreadable rest bad.1 fits)

-- A snapshot of more radios than the cap, as an old file may hold, is cut to the cap on loading, and
-- what is cut counts as evicted.
pub restore-RadiosAreOk :
    (room : ℕ) (t : StateManager) (snap : DashboardSnapshot)
    → Distinct (keys snap.radios)
    → All (RadioIsOk room) snap.radios
    → RadiosAreOk room t.max_radios (restore t snap).radios
      × (length (restore t snap).radios + (restore t snap).radios_evicted_total
          ≡ length snap.radios + snap.radios_evicted_total)
unfolding restore
restore-RadiosAreOk room t snap u a =
    let t' = record t {
      radios = snap.radios;
      system = snap.system;
      quality = snap.quality;
      radios_evicted_total = snap.radios_evicted_total;
    } in
    elim (Bool-cases (ltb t.max_radios (length snap.radios))) [
      | inl over ↦ rw over (
        evict_radios-RadiosAreOk room t' u a,
        (evict_radios-counts t' u (Named-of room snap.radios a)).0,
      )
      | inr fits ↦ rw fits (record { ids = u; each = a; within = ltb→ge _ _ fits }, refl)
    ]
