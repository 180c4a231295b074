-- ===== src/State/History.antt =====
-- backend/state.py: a run of the manager: the events that arrive and the ticks of the clock, in the
-- order in which the event loop handles them.
use dmr_decrep_shahar.Prelude.{ℕ, ◌<◌, List, [], ◌∷◌, refl, arith}
use dmr_decrep_shahar.Models.{Event}
use dmr_decrep_shahar.State.Data.{StateManager}
use dmr_decrep_shahar.State.Apply.{apply, tick}
use dmr_decrep_shahar.State.Apply.Invariant.{IsOk, apply-IsOk, tick-IsOk}
use dmr_decrep_shahar.State.Calls.Notices.{starts_in, ends_in}
use dmr_decrep_shahar.State.Snapshot.{init}

pub data Input : Type 0 where
  arrives : Event → Input
  ticks : ℕ → Input

unfoldable pub step : StateManager → Input → StateManager
unfolding apply tick
step s (arrives ev) = apply s ev
step s (ticks now) = tick s now

unfoldable pub run : StateManager → List Input → StateManager
unfolding step
run s [] = s
run s (i ∷ inputs) = run (step s i) inputs

run-IsOk : (s : StateManager) (inputs : List Input) → IsOk s → IsOk (run s inputs)
unfolding run step
run-IsOk s [] ok = ok
run-IsOk s (arrives ev ∷ inputs) ok = run-IsOk (apply s ev) inputs (apply-IsOk s ev ok)
run-IsOk s (ticks now ∷ inputs) ok = run-IsOk (tick s now) inputs (tick-IsOk s now ok)

-- A manager that keeps at least one position for each radio stays well formed whatever happens:
-- live radios are under their own ids, within the cap, each first seen no later than last seen and
-- with no more positions than the limit; calls are under the keys of their channels and slots; and
-- the calls reported as started are as many as those reported as ended and those in progress.
pub run-init-IsOk :
    (timeout trail most_shown trail_age cap_radios : ℕ) (inputs : List Input)
    → 0 < trail
    → IsOk (run (init timeout trail most_shown trail_age cap_radios) inputs)
unfolding init
run-init-IsOk timeout trail most_shown trail_age cap_radios inputs positive =
    run-IsOk _ inputs (record {
      trail = positive;
      radios = record { ids = tt; each = tt; within = omega arith };
      calls = record { distinct = tt; each = tt; balanced = unfold starts_in ends_in in refl };
    })
