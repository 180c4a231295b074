-- ===== src/State/Data.antt =====
-- The records of backend/state.py, and the keys of active calls.
use dmr_decrep_shahar.Prelude.{ℕ, ℤ, String, Bool, Option, List, Key, ℕ_discrete, String_discrete}
use dmr_decrep_shahar.Dict.{Dict}

pub record Position : Type 0 where
  pub lat : ℤ
  pub lon : ℤ
  pub at : ℕ

pub record Radio : Type 0 where
  pub id : ℕ
  pub first_seen : ℕ
  pub last_seen : ℕ
  pub ip : Option String
  pub voice_frame_count : ℕ
  pub last_tg : Option ℕ
  pub last_slot : Option ℕ
  pub last_call_was_encrypted : Bool
  pub last_position : Option Position
  pub position_history : List Position
  pub last_channel : Option String
  pub last_frequency : Option ℕ

pub record ActiveCall : Type 0 where
  pub slot : ℕ
  pub src : ℕ
  pub tgt : ℕ
  pub is_cap_plus : Bool
  pub is_txi : Bool
  pub started_at : ℕ
  pub last_frame_at : ℕ
  pub frame_count : ℕ
  pub is_encrypted : Bool
  pub rest_lsn : Option ℕ
  pub channel_label : Option String
  pub frequency : Option ℕ

pub record LsnStateSnapshot : Type 0 where
  pub state : String
  pub tg : Option ℕ
  pub updated_at : ℕ

pub record SystemStatus : Type 0 where
  pub site : Option ℕ
  pub rest_lsn : Option ℕ
  pub lsn_states : Dict ℕ LsnStateSnapshot
  pub last_seen : Option ℕ

pub record QualityCounters : Type 0 where
  pub csbk_crc : ℕ
  pub csbk_fec : ℕ
  pub cach_burst_fec : ℕ
  pub slco_crc : ℕ
  pub last_error_at : Option ℕ
  pub total_events_seen : ℕ

-- The key of an active call: the slot alone, or the text `<channel>:<slot>`, which is kept here as
-- its two parts (the slot is the digits behind the last colon, so the text determines them).
pub data CallKey : Type 0 where
  bare : ℕ → CallKey
  on_channel : String → ℕ → CallKey

unfoldable pub CallKey_discrete : Discrete CallKey
CallKey_discrete = hlevel (ℕ_discrete, String_discrete)

instance abbrev pub call_key_key : Key CallKey
call_key_key = record { dec = CallKey_discrete }

pub record DashboardSnapshot : Type 0 where
  pub radios : Dict ℕ Radio
  pub active_calls : Dict CallKey ActiveCall
  pub system : SystemStatus
  pub quality : QualityCounters
  pub generated_at : ℕ
  pub radios_total : ℕ
  pub radios_evicted_total : ℕ

-- a call of `on_call_start` or `on_call_end`
pub data Notice : Type 0 where
  started : ActiveCall → Notice
  ended : ActiveCall → Notice

-- The fields of a `StateManager`. The first five never change. `notices` lists the calls of the two
-- callbacks, whose exceptions the source drops.
pub record StateManager : Type 0 where
  pub call_idle_timeout : ℕ
  pub position_history_length : ℕ
  pub broadcast_max_radios : ℕ
  pub broadcast_trail_max_age : ℕ
  pub max_radios : ℕ
  pub radios : Dict ℕ Radio
  pub active_calls : Dict CallKey ActiveCall
  pub system : SystemStatus
  pub quality : QualityCounters
  pub last_event_at : Option ℕ
  pub cur_channel_label : Option String
  pub cur_frequency : Option ℕ
  pub radios_evicted_total : ℕ
  pub notices : List Notice
