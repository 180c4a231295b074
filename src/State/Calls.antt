-- ===== src/State/Calls.antt =====
-- backend/state.py: the calls in progress, `_call_key`, `_expire_idle_calls`, `_on_voice_call` and
-- `_on_encryption`. `now - call.last_frame_at > timeout` is written as a sum, since a difference of
-- times may be negative.
pub mod Expiry
pub mod Notices
pub mod Invariant
pub mod Voice
use dmr_decrep_shahar.Prelude.{
  nat_key, ℕ, ◌+◌, Bool, true, false, Option, none, some, List, [], ◌∷◌, ◌++◌, map, filter, ltb,
  ◌==◌, ◌&&◌, if◌then◌else◌,
}
use dmr_decrep_shahar.Dict.{Dict, keys, get, put, del, modify}
use dmr_decrep_shahar.Models.{VoiceCallEvent, EncryptionEvent}
use dmr_decrep_shahar.State.Data.{
  call_key_key, ActiveCall, Radio, CallKey, bare, on_channel, Notice, started, ended, StateManager,
}
use dmr_decrep_shahar.State.Radios.{touch_radio, update_radio}

unfoldable pub call_key : StateManager → ℕ → CallKey
call_key s slot = elim s.cur_channel_label [ none ↦ bare slot | some label ↦ on_channel label slot ]

abbrev pub is_idle : StateManager → ℕ → ActiveCall → Bool
is_idle s now call = ltb (call.last_frame_at + s.call_idle_timeout) now

unfoldable pub notify : StateManager → Notice → StateManager
notify s n = record s { notices = s.notices ++ n ∷ [] }

-- one round of the loop over the expired keys
unfoldable pub end_call : StateManager → CallKey → StateManager
unfolding notify
end_call s key = elim (get s.active_calls key) [
  | none ↦ s
  | some call ↦ record (notify s (ended call)) { active_calls = del s.active_calls key }
]

unfoldable pub end_calls : StateManager → List CallKey → StateManager
end_calls s [] = s
end_calls s (key ∷ rest) = end_calls (end_call s key) rest

unfoldable pub expire_idle_calls : StateManager → ℕ → StateManager
expire_idle_calls s now = end_calls s (keys (filter (λ e. is_idle s now e.1) s.active_calls))

abbrev pub count_frame : VoiceCallEvent → Radio → Radio
count_frame ev r = record r {
  voice_frame_count = r.voice_frame_count + 1;
  last_tg = some ev.tgt;
  last_slot = some ev.slot;
}

-- `existing.src == ev.src and existing.tgt == ev.tgt`
abbrev pub same_parties : VoiceCallEvent → ActiveCall → Bool
same_parties ev call = call.src == ev.src && call.tgt == ev.tgt

abbrev pub next_frame : VoiceCallEvent → ℕ → ActiveCall → ActiveCall
next_frame ev ts call = record call {
  last_frame_at = ts;
  frame_count = call.frame_count + 1;
  rest_lsn = elim ev.rest_lsn [ none ↦ call.rest_lsn | some lsn ↦ some lsn ];
}

abbrev pub new_call : StateManager → VoiceCallEvent → ℕ → ActiveCall
new_call s ev ts = record {
  slot = ev.slot;
  src = ev.src;
  tgt = ev.tgt;
  is_cap_plus = ev.is_cap_plus;
  is_txi = ev.is_txi;
  started_at = ts;
  last_frame_at = ts;
  frame_count = 1;
  is_encrypted = false;
  rest_lsn = ev.rest_lsn;
  channel_label = s.cur_channel_label;
  frequency = s.cur_frequency;
}

-- the `else` branch: a new keyup, which takes the place of `existing`, the other call on its key
unfoldable pub start_call : StateManager → Option ActiveCall → VoiceCallEvent → ℕ → StateManager
unfolding notify update_radio call_key
start_call s existing ev ts =
    let s1 : StateManager = elim existing [ none ↦ s | some call ↦ notify s (ended call) ] in
    let s2 = update_radio s1 ev.src (λ r. record r { last_call_was_encrypted = false }) in
    let call = new_call s2 ev ts in
    notify (record s2 { active_calls = put s2.active_calls (call_key s2 ev.slot) call })
      (started call)

unfoldable pub voice_frame : StateManager → VoiceCallEvent → ℕ → StateManager
unfolding start_call
voice_frame s ev ts = elim (get s.active_calls (call_key s ev.slot)) [
  | none ↦ start_call s none ev ts
  | some call ↦
      if same_parties ev call
      then record s { active_calls = modify s.active_calls (call_key s ev.slot) (next_frame ev ts) }
      else start_call s (some call) ev ts
]

unfoldable pub on_voice_call : StateManager → VoiceCallEvent → ℕ → StateManager
unfolding voice_frame touch_radio update_radio
on_voice_call s ev ts =
    if ev.src == 0
    then s
    else voice_frame (update_radio (touch_radio s ev.src ts) ev.src (count_frame ev)) ev ts

unfoldable pub on_encryption : StateManager → EncryptionEvent → StateManager
unfolding call_key update_radio
on_encryption s ev = elim (get s.active_calls (call_key s ev.slot)) [
  | none ↦ s
  | some call ↦
      update_radio
        (record s {
          active_calls =
              modify s.active_calls (call_key s ev.slot) (λ c. record c { is_encrypted = true });
        })
        call.src (λ r. record r { last_call_was_encrypted = true })
]
