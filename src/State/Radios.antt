-- ===== src/State/Radios.antt =====
-- backend/state.py, `_touch_radio` and `_evict_radios`: the live radios, kept under a cap. The source
-- changes a `Radio` through a reference: where the eviction has just removed that radio, the change
-- reaches an object that is in no dict, so it is `modify`, which does nothing then.
pub mod Eviction
pub mod Touch
pub mod Latest
use dmr_decrep_shahar.Prelude.{
  nat_key, ℕ, ◌+◌, ◌-◌, ◌/◌, max, min, Bool, Option, none, some, List, map, length, take, ltb, leb,
  if◌then◌else◌, false, [],
}
use dmr_decrep_shahar.Dict.{Dict, keys, values, get, put, modify, del_all}
use dmr_decrep_shahar.Sort.{sorted}
use dmr_decrep_shahar.State.Data.{Radio, StateManager}

-- `Radio(id=radio_id, first_seen=ts, last_seen=ts)`
abbrev pub new_radio : ℕ → ℕ → Radio
new_radio radio_id ts = record {
  id = radio_id;
  first_seen = ts;
  last_seen = ts;
  ip = none;
  voice_frame_count = 0;
  last_tg = none;
  last_slot = none;
  last_call_was_encrypted = false;
  last_position = none;
  position_history = [];
  last_channel = none;
  last_frequency = none;
}

-- the order of `sorted(..., key=lambda r: r.last_seen)`
abbrev pub seen_before : Radio → Radio → Bool
seen_before a b = leb a.last_seen b.last_seen

-- how many radios one eviction removes
unfoldable pub batch_size : ℕ → ℕ → ℕ
batch_size count max_radios = min (max (max (count - max_radios) (max_radios / 20)) 1) count

-- the radios that an eviction removes, the longest unheard first
unfoldable pub oldest_radios : StateManager → List Radio
unfolding batch_size
oldest_radios s =
    take (batch_size (length s.radios) s.max_radios) (sorted seen_before (values s.radios))

unfoldable pub evict_radios : StateManager → StateManager
unfolding oldest_radios
evict_radios s = if leb (length s.radios) s.max_radios then s else record s {
  radios = del_all s.radios (map (λ r. r.id) (oldest_radios s));
  radios_evicted_total = s.radios_evicted_total + length (oldest_radios s);
}

unfoldable pub update_radio : StateManager → ℕ → (Radio → Radio) → StateManager
update_radio s radio_id f = record s { radios = modify s.radios radio_id f }

-- `if ts > radio.last_seen: radio.last_seen = ts`
abbrev pub see_at : ℕ → Radio → Radio
see_at ts r = if ltb r.last_seen ts then record r { last_seen = ts } else r

unfoldable pub insert_radio : StateManager → ℕ → ℕ → StateManager
unfolding evict_radios
insert_radio s radio_id ts =
    let s' = record s { radios = put s.radios radio_id (new_radio radio_id ts) } in
    if ltb s'.max_radios (length s'.radios) then evict_radios s' else s'

unfoldable pub stamp_channel : StateManager → ℕ → StateManager
unfolding update_radio
stamp_channel s radio_id = elim s.cur_channel_label [
  | none ↦ s
  | some label ↦
      update_radio s radio_id
        (λ r. record r { last_channel = some label; last_frequency = s.cur_frequency })
]

unfoldable pub touch_radio : StateManager → ℕ → ℕ → StateManager
unfolding insert_radio stamp_channel
touch_radio s radio_id ts =
    stamp_channel
      (elim (get s.radios radio_id) [
        | none ↦ insert_radio s radio_id ts
        | some _ ↦ update_radio s radio_id (see_at ts)
      ])
      radio_id
