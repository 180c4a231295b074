-- ===== src/State/Apply.antt =====
-- backend/state.py: `apply`, its handlers other than those of calls, `tick`, `reset` and
-- `active_talkgroups`.
pub mod Invariant
pub mod Calls
pub mod Fresh
use dmr_decrep_shahar.Prelude.{
  nat_key, ℕ, ◌+◌, ◌-◌, String, Bool, true, false, Option, none, some, List, [], ◌∷◌, ◌++◌, length,
  drop, ltb, ◌==◌, ite, String_discrete, if◌then◌else◌,
}
use dmr_decrep_shahar.Dict.{Dict, put}
use dmr_decrep_shahar.Models.{
  Event, Body, site_info, channel_status, lsn_status, bank_call, quality, voice_call, preamble_csbk,
  data_header, ip_mapping, lrrp_position, lrrp_request, encryption, LsnState, PreambleCsbkEvent,
  IpMappingEvent, LrrpPositionEvent, LrrpRequestEvent, SiteInfoEvent,
}
use dmr_decrep_shahar.State.Data.{
  StateManager, Position, Radio, LsnStateSnapshot, SystemStatus, QualityCounters,
}
use dmr_decrep_shahar.State.Radios.{touch_radio, update_radio}
use dmr_decrep_shahar.State.Calls.{expire_idle_calls, on_voice_call, on_encryption}

unfoldable pub on_preamble_csbk : StateManager → PreambleCsbkEvent → ℕ → StateManager
unfolding touch_radio
on_preamble_csbk s ev ts =
    let s' = touch_radio s ev.src ts in
    ite (String_discrete ev.addressing "Individual") (touch_radio s' ev.tgt ts) s'

-- `history[-n:]`, which is the whole list for n = 0
unfoldable pub last_n {ℓ} : {A : Type ℓ} → ℕ → List A → List A
last_n n history = if n == 0 then history else drop (length history - n) history

unfoldable pub add_position : ℕ → Position → Radio → Radio
unfolding last_n
add_position cap pos r =
    let history = r.position_history ++ pos ∷ [] in
    record r {
      last_position = some pos;
      position_history = if ltb cap (length history) then last_n cap history else history;
    }

unfoldable pub on_lrrp_position : StateManager → LrrpPositionEvent → ℕ → StateManager
unfolding touch_radio update_radio add_position
on_lrrp_position s ev ts = elim ev.src [
  | none ↦ s
  | some src ↦
      update_radio (touch_radio s src ts) src
        (add_position s.position_history_length (record { lat = ev.lat; lon = ev.lon; at = ts }))
]

unfoldable pub on_ip_mapping : StateManager → IpMappingEvent → ℕ → StateManager
unfolding touch_radio update_radio
on_ip_mapping s ev ts =
    update_radio (touch_radio s ev.radio_id ts) ev.radio_id (λ r. record r { ip = some ev.ip })

unfoldable pub on_lrrp_request : StateManager → LrrpRequestEvent → ℕ → StateManager
unfolding touch_radio
on_lrrp_request s ev ts = touch_radio (touch_radio s ev.src ts) ev.tgt ts

-- `self.system.last_seen = ev.timestamp`
unfoldable pub see_system : SystemStatus → ℕ → SystemStatus
see_system y ts = record y { last_seen = some ts }

unfoldable pub on_site_info : StateManager → SiteInfoEvent → ℕ → StateManager
unfolding see_system
on_site_info s ev ts = record s {
  system = see_system (record s.system { site = some ev.site; rest_lsn = some ev.rest_lsn }) ts;
}

unfoldable pub on_channel_status : StateManager → ℕ → ℕ → StateManager
unfolding see_system
on_channel_status s rest_lsn ts = record s {
  system = see_system (record s.system { rest_lsn = some rest_lsn }) ts;
}

unfoldable pub set_lsn_states : SystemStatus → List LsnState → ℕ → SystemStatus
set_lsn_states y [] ts = y
set_lsn_states y (s ∷ rest) ts =
    set_lsn_states
      (record y {
        lsn_states =
            put y.lsn_states s.lsn (record { state = s.state; tg = s.tg; updated_at = ts });
      })
      rest ts

unfoldable pub on_lsn_status : StateManager → List LsnState → ℕ → StateManager
unfolding set_lsn_states see_system
on_lsn_status s states ts = record s { system = see_system (set_lsn_states s.system states ts) ts }

unfoldable pub on_bank_call : StateManager → ℕ → StateManager
unfolding see_system
on_bank_call s ts = record s { system = see_system s.system ts }

unfoldable pub count_error : QualityCounters → String → QualityCounters
count_error q kind =
    ite (String_discrete kind "CSBK_CRC") (record q { csbk_crc = q.csbk_crc + 1 })
      (ite (String_discrete kind "CSBK_FEC") (record q { csbk_fec = q.csbk_fec + 1 })
        (ite (String_discrete kind "CACH_BURST_FEC")
          (record q { cach_burst_fec = q.cach_burst_fec + 1 })
          (ite (String_discrete kind "SLCO_CRC") (record q { slco_crc = q.slco_crc + 1 }) q)))

unfoldable pub on_quality : StateManager → String → ℕ → StateManager
unfolding count_error
on_quality s kind ts = record s {
  quality = record (count_error s.quality kind) { last_error_at = some ts };
}

-- the `elif` ladder of `apply`
unfoldable pub handle : StateManager → ℕ → Body → StateManager
unfolding on_voice_call on_preamble_csbk on_ip_mapping on_lrrp_position on_lrrp_request
    on_encryption on_site_info on_channel_status on_lsn_status on_bank_call on_quality
handle s ts (voice_call ev) = on_voice_call s ev ts
handle s ts (preamble_csbk ev) = on_preamble_csbk s ev ts
handle s ts (data_header ev) = touch_radio s ev.src ts
handle s ts (ip_mapping ev) = on_ip_mapping s ev ts
handle s ts (lrrp_position ev) = on_lrrp_position s ev ts
handle s ts (lrrp_request ev) = on_lrrp_request s ev ts
handle s ts (encryption ev) = on_encryption s ev
handle s ts (site_info ev) = on_site_info s ev ts
handle s ts (channel_status ev) = on_channel_status s ev.rest_lsn ts
handle s ts (lsn_status states) = on_lsn_status s states ts
handle s ts (bank_call ev) = on_bank_call s ts
handle s ts (quality kind) = on_quality s kind ts

-- what `apply` writes before the idle calls are expired
unfoldable pub note_event : StateManager → Event → StateManager
note_event s ev = record s {
  quality = record s.quality { total_events_seen = s.quality.total_events_seen + 1 };
  last_event_at = some ev.timestamp;
  cur_channel_label = ev.channel_label;
  cur_frequency = ev.frequency;
}

unfoldable pub apply : StateManager → Event → StateManager
unfolding note_event expire_idle_calls handle
apply s ev = handle (expire_idle_calls (note_event s ev) ev.timestamp) ev.timestamp ev.body

unfoldable pub tick : StateManager → ℕ → StateManager
unfolding expire_idle_calls
tick s now = expire_idle_calls s now

abbrev pub no_quality : QualityCounters
no_quality = record {
  csbk_crc = 0;
  csbk_fec = 0;
  cach_burst_fec = 0;
  slco_crc = 0;
  last_error_at = none;
  total_events_seen = 0;
}

abbrev pub no_system : SystemStatus
no_system = record { site = none; rest_lsn = none; lsn_states = []; last_seen = none }

unfoldable pub reset : StateManager → StateManager
reset s = record s {
  radios = [];
  active_calls = [];
  system = no_system;
  quality = no_quality;
  last_event_at = none;
  radios_evicted_total = 0;
}

-- the comprehension of `active_talkgroups`, over the entries of `lsn_states`
unfoldable pub talkgroups : Dict ℕ LsnStateSnapshot → Dict ℕ ℕ → Dict ℕ ℕ
talkgroups [] out = out
talkgroups ((lsn, snap) ∷ rest) out = talkgroups rest (
    ite (String_discrete snap.state "Active")
      (elim snap.tg [ none ↦ out | some tg ↦ put out lsn tg ]) out)

unfoldable pub active_talkgroups : StateManager → Dict ℕ ℕ
unfolding talkgroups
active_talkgroups s = talkgroups s.system.lsn_states []
