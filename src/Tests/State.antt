-- ===== src/Tests/State.antt =====
-- backend/state.py: two radios under a cap of two, a call that runs out, and a third radio.
use dmr_decrep_shahar.Prelude.{
  nat_key, ℕ, ◌+◌, ◌≤◌, true, false, none, some, List, [], ◌∷◌, length, ◌≡◌, refl, arith, inl,
  Member, Distinct, ℕ_discrete,
}
use dmr_decrep_shahar.Dict.{keys, get, put, del, del_all, put_all}
use dmr_decrep_shahar.Sort.{sorted}
use dmr_decrep_shahar.Models.{Event, Body, VoiceCallEvent, voice_call, encryption}
use dmr_decrep_shahar.State.Data.{
  Radio, call_key_key, CallKey_discrete, ActiveCall, bare, StateManager,
}
use dmr_decrep_shahar.State.Radios.{new_radio, touch_radio, evict_radios}
use dmr_decrep_shahar.State.Radios.Eviction.{Named, evict_radios-counts, evict_radios-oldest_first}
use dmr_decrep_shahar.State.Radios.Touch.{RadiosAreOk, touch_radio-counts}
use dmr_decrep_shahar.State.Radios.Latest.{touch_radio-keeps_latest}
use dmr_decrep_shahar.State.Calls.{expire_idle_calls}
use dmr_decrep_shahar.State.Calls.Expiry.{ends, expire_idle_calls-filter}
use dmr_decrep_shahar.State.Apply.{apply}
use dmr_decrep_shahar.State.Apply.Invariant.{IsOk}
use dmr_decrep_shahar.State.Apply.Calls.{apply-voice_call, apply-voice_call_after_gap}
use dmr_decrep_shahar.State.Apply.Fresh.{AreFresh, apply-AreFresh}
use dmr_decrep_shahar.State.Snapshot.{
  init, snapshot, load_snapshot, restore, broadcast_source, broadcast_radios,
}
use dmr_decrep_shahar.State.Snapshot.Broadcast.{
  IsTrimmed, broadcast_radios_lem, broadcast_source-newest_first,
}
use dmr_decrep_shahar.State.Snapshot.Restore.{load_snapshot-snapshot, restore-RadiosAreOk}
use dmr_decrep_shahar.State.History.{Input, arrives, ticks, run, run-init-IsOk}

abbrev voice : ℕ → ℕ → ℕ → VoiceCallEvent
voice slot src tgt = record {
  slot = slot;
  src = src;
  tgt = tgt;
  is_cap_plus = false;
  is_txi = false;
  rest_lsn = none;
}

abbrev at : ℕ → Body → Event
at ts body = record {
  timestamp = ts;
  raw_line = "";
  schema_version = 1;
  frequency = none;
  channel_label = none;
  body = body;
}

-- a silence of two seconds ends a call; at most two live radios, one in a broadcast
abbrev start : StateManager
start = record {
  call_idle_timeout = 2_000_000;
  position_history_length = 50;
  broadcast_max_radios = 1;
  broadcast_trail_max_age = 900_000_000;
  max_radios = 2;
  radios = [];
  active_calls = [];
  system = record { site = none; rest_lsn = none; lsn_states = []; last_seen = none };
  quality = record {
    csbk_crc = 0;
    csbk_fec = 0;
    cach_burst_fec = 0;
    slco_crc = 0;
    last_error_at = none;
    total_events_seen = 0;
  };
  last_event_at = none;
  cur_channel_label = none;
  cur_frequency = none;
  radios_evicted_total = 0;
  notices = [];
}

abbrev first_call : ActiveCall
first_call = record {
  slot = 1;
  src = 7;
  tgt = 100;
  is_cap_plus = false;
  is_txi = false;
  started_at = 1_000_000;
  last_frame_at = 1_000_000;
  frame_count = 1;
  is_encrypted = true;
  rest_lsn = none;
  channel_label = none;
  frequency = none;
}

-- radios 7 and 8 are live, and 7 has an encrypted call on slot 1
abbrev busy : StateManager
busy = record start {
  radios = (7, new_radio 7 1_000_000) ∷ (8, new_radio 8 2_000_000) ∷ [];
  active_calls = (bare 1, first_call) ∷ [];
}

-- one radio too many
abbrev crowded : StateManager
crowded = record busy {
  radios = (7, new_radio 7 1_000_000) ∷ (8, new_radio 8 2_000_000) ∷ (9, new_radio 9 500_000) ∷ [];
}

crowded-Distinct : Distinct (keys crowded.radios)
crowded-Distinct = ground arith

crowded-Named : Named crowded.radios
crowded-Named = (refl, (refl, (refl, tt)))

busy-Distinct : Distinct (keys busy.radios)
busy-Distinct = ground arith

evicts_radio_9 : keys (evict_radios crowded).radios ≡ 7 ∷ 8 ∷ []
unfolding evict_radios sorted del_all del ℕ_discrete
evicts_radio_9 = refl

evict_radios-counts_example :
    (length (evict_radios crowded).radios + (evict_radios crowded).radios_evicted_total ≡ 3 + 0)
    × (length (evict_radios crowded).radios ≤ 2)
evict_radios-counts_example = evict_radios-counts crowded crowded-Distinct crowded-Named

evict_radios-oldest_first_example : 500_000 ≤ 1_000_000
unfolding evict_radios sorted del_all del ℕ_discrete
evict_radios-oldest_first_example =
    evict_radios-oldest_first crowded crowded-Distinct crowded-Named (omega arith)
      (new_radio 9 500_000) 7 (new_radio 7 1_000_000) (inl refl) (inl refl)

busy-RadiosAreOk : RadiosAreOk 50 2 busy.radios
busy-RadiosAreOk = record {
  ids = busy-Distinct;
  each = (
    record { named = refl; span = omega arith; trail = omega arith },
    (record { named = refl; span = omega arith; trail = omega arith }, tt),
  );
  within = omega arith;
}

touch_radio-counts_example :
    length (touch_radio busy 9 3_000_000).radios
      + (touch_radio busy 9 3_000_000).radios_evicted_total
    ≡ 2 + 0 + 1
unfolding get ℕ_discrete
touch_radio-counts_example = touch_radio-counts busy 9 3_000_000 50 busy-RadiosAreOk

touch_radio-keeps_latest_example : Member 9 (keys (touch_radio busy 9 3_000_000).radios)
touch_radio-keeps_latest_example =
    touch_radio-keeps_latest 50 busy 9 3_000_000 busy-RadiosAreOk (omega arith)
      (omega arith, (omega arith, tt))

calls-Distinct : Distinct (keys busy.active_calls)
calls-Distinct = ground arith

expire_idle_calls-filter_example :
    expire_idle_calls busy 4_000_000
    ≡ record busy { active_calls = []; notices = ends busy.active_calls }
expire_idle_calls-filter_example = expire_idle_calls-filter busy 4_000_000 calls-Distinct

expiry_keeps_call : expire_idle_calls busy 3_000_000 ≡ record busy { notices = [] }
expiry_keeps_call = expire_idle_calls-filter busy 3_000_000 calls-Distinct

apply-AreFresh_example :
    AreFresh 2_000_000 2_500_000
      (apply busy (at 2_500_000 (voice_call (voice 2 8 100)))).active_calls
apply-AreFresh_example =
    apply-AreFresh busy (at 2_500_000 (voice_call (voice 2 8 100))) calls-Distinct

apply-voice_call_example :
    get (apply busy (at 2_500_000 (voice_call (voice 2 8 100)))).active_calls (bare 1)
    ≡ some first_call
unfolding get CallKey_discrete ℕ_discrete
apply-voice_call_example =
    apply-voice_call busy (at 2_500_000 (voice_call (voice 2 8 100))) (voice 2 8 100) (bare 1)
      calls-Distinct refl (omega arith)

apply-voice_call_after_gap_example :
    (c : ActiveCall) × (get
        (apply busy (at 9_000_000 (voice_call (voice 1 7 100)))).active_calls
        (bare 1)
      ≡ some c)
    × (c.is_encrypted ≡ false)
    × (c.frame_count ≡ 1)
    × (c.started_at ≡ 9_000_000)
unfolding get CallKey_discrete ℕ_discrete
apply-voice_call_after_gap_example =
    apply-voice_call_after_gap busy (at 9_000_000 (voice_call (voice 1 7 100))) (voice 1 7 100)
      first_call calls-Distinct refl (omega arith) refl (omega arith)

broadcast_radios_lem_example :
    (length (broadcast_radios busy 3_000_000) ≡ 1)
    × ((x : ℕ) (t : Radio)
        → Member (x, t) (broadcast_radios busy 3_000_000)
        → (r : Radio) × Member (x, r) busy.radios × IsTrimmed busy 3_000_000 r t)
broadcast_radios_lem_example = broadcast_radios_lem busy busy-Distinct (refl, (refl, tt)) 3_000_000

broadcast_shows_radio_8 : keys (broadcast_radios busy 3_000_000) ≡ 8 ∷ []
unfolding broadcast_radios sorted put_all put ℕ_discrete
broadcast_shows_radio_8 = refl

broadcast_source-newest_first_example : 1_000_000 ≤ 2_000_000
unfolding broadcast_source sorted put_all put ℕ_discrete
broadcast_source-newest_first_example =
    broadcast_source-newest_first busy busy-Distinct (refl, (refl, tt)) (omega arith) 8 7
      (new_radio 8 2_000_000) (new_radio 7 1_000_000) (inl refl) (inl refl) (ground arith)

load_snapshot-snapshot_example :
    load_snapshot start (none ∷ some (snapshot busy false 0) ∷ [])
    ≡ (record start { radios = busy.radios }, true)
load_snapshot-snapshot_example =
    load_snapshot-snapshot busy start 0 (none ∷ []) [] (refl, tt) (omega arith)

restore-RadiosAreOk_example :
    RadiosAreOk 50 2 (restore start (snapshot busy false 0)).radios
    × (length (restore start (snapshot busy false 0)).radios
          + (restore start (snapshot busy false 0)).radios_evicted_total
        ≡ 2 + 0)
unfolding snapshot
restore-RadiosAreOk_example =
    restore-RadiosAreOk 50 start (snapshot busy false 0) busy-Distinct busy-RadiosAreOk.each

abbrev inputs : List Input
inputs =
    arrives (at 1_000_000 (voice_call (voice 1 7 100)))
    ∷ arrives (at 1_060_000 (voice_call (voice 1 7 100)))
    ∷ arrives (at 1_100_000 (encryption (record { slot = 1; flco = "0x04"; fid = "0x80" })))
    ∷ ticks 9_000_000
    ∷ []

run-init-IsOk_example : IsOk (run (init 2_000_000 50 1 900_000_000 2) inputs)
run-init-IsOk_example = run-init-IsOk 2_000_000 50 1 900_000_000 2 inputs (omega arith)
