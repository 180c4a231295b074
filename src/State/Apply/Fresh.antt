-- ===== src/State/Apply/Fresh.antt =====
-- backend/state.py: the age of the calls in progress after an event.
use dmr_decrep_shahar.Prelude.{
  ℕ, ◌+◌, ◌≤◌, true, not, Option, none, some, [], ◌∷◌, sym, subst, arith, inl, inr, All, filter,
  Distinct, if_pos, if_neg, ltb, ◌==◌, Bool-cases, Option-cases, String_discrete,
}
use dmr_decrep_shahar.Dict.{Dict, keys, get}
use dmr_decrep_shahar.Dict.Entries.{put-All, modify-All}
use dmr_decrep_shahar.Models.{
  Event, Body, VoiceCallEvent, voice_call, preamble_csbk, data_header, ip_mapping, lrrp_position,
  lrrp_request, encryption,
}
use dmr_decrep_shahar.State.Data.{call_key_key, ActiveCall, CallKey, StateManager}
use dmr_decrep_shahar.State.Radios.{touch_radio, update_radio}
use dmr_decrep_shahar.State.Radios.Touch.{touch_radio-frame}
use dmr_decrep_shahar.State.Calls.{
  on_voice_call, on_encryption, start_call, voice_frame, call_key, same_parties, next_frame,
  new_call,
}
use dmr_decrep_shahar.State.Calls.Expiry.{expire_idle_calls-filter}
use dmr_decrep_shahar.State.Calls.Voice.{start_call-calls}
use dmr_decrep_shahar.State.Apply.{
  note_event, handle, apply, on_preamble_csbk, on_ip_mapping, on_lrrp_position, on_lrrp_request,
  on_site_info, on_channel_status, on_lsn_status, on_bank_call, on_quality,
}

-- the calls in `d` were heard no longer than `timeout` before `now`
abbrev pub AreFresh : ℕ → ℕ → Dict CallKey ActiveCall → Type 0
AreFresh timeout now = All (λ e. now ≤ e.1.last_frame_at + timeout)

-- Fresh, whatever happens to the radios.
touch_radio-AreFresh :
    (timeout now : ℕ) (s : StateManager) (x ts : ℕ)
    → AreFresh timeout now s.active_calls
    → AreFresh timeout now (touch_radio s x ts).active_calls
touch_radio-AreFresh timeout now s x ts f =
    subst (λ t. AreFresh timeout now t.active_calls) (sym (touch_radio-frame s x ts)) f

start_call-AreFresh :
    (timeout ts : ℕ) (s : StateManager) (o : Option ActiveCall) (ev : VoiceCallEvent)
    → AreFresh timeout ts s.active_calls
    → AreFresh timeout ts (start_call s o ev ts).active_calls
start_call-AreFresh timeout ts s o ev f =
    rw (start_call-calls s ev ts o)
      (put-All _ s.active_calls (call_key s ev.slot) (new_call s ev ts) (omega arith) f)

voice_frame-AreFresh :
    (timeout ts : ℕ) (s : StateManager) (ev : VoiceCallEvent)
    → AreFresh timeout ts s.active_calls
    → AreFresh timeout ts (voice_frame s ev ts).active_calls
unfolding voice_frame
voice_frame-AreFresh timeout ts s ev f =
    elim (Option-cases (get s.active_calls (call_key s ev.slot))) [
      | inl e ↦ rw (e, voice_frame) (start_call-AreFresh timeout ts s none ev f)
      | inr (c, e) ↦ elim (Bool-cases (same_parties ev c)) [
        | inl same ↦
            rw (e, voice_frame)
              (rw same (
                modify-All _ s.active_calls (call_key s ev.slot) (next_frame ev ts)
                  (λ c h. omega arith) f))
        | inr other ↦
            rw (e, voice_frame) (rw other (start_call-AreFresh timeout ts s (some c) ev f))
      ]
    ]

handle-AreFresh :
    (timeout ts : ℕ) (s : StateManager) (b : Body)
    → AreFresh timeout ts s.active_calls
    → AreFresh timeout ts (handle s ts b).active_calls
unfolding handle on_preamble_csbk on_ip_mapping on_lrrp_position on_lrrp_request on_site_info
    on_channel_status on_lsn_status on_bank_call on_quality update_radio on_voice_call on_encryption
handle-AreFresh timeout ts s (voice_call ev) f = elim (Bool-cases (ev.src == 0)) [
  | inl e ↦ rw (e, on_voice_call) f
  | inr e ↦
      rw (e, on_voice_call)
        (voice_frame-AreFresh timeout ts _ ev (touch_radio-AreFresh timeout ts s ev.src ts f))
]
handle-AreFresh timeout ts s (preamble_csbk ev) f =
    let src = touch_radio-AreFresh timeout ts s ev.src ts f in
    let s' = touch_radio s ev.src ts in
    let d = String_discrete ev.addressing "Individual" in
    elim (String_discrete ev.addressing "Individual") [
      | yes p ↦
          rw (if_pos d p (touch_radio s' ev.tgt ts) s')
            (touch_radio-AreFresh timeout ts s' ev.tgt ts src)
      | no p ↦ rw (if_neg d p (touch_radio s' ev.tgt ts) s') src
    ]
handle-AreFresh timeout ts s (data_header ev) f = touch_radio-AreFresh timeout ts s ev.src ts f
handle-AreFresh timeout ts s (ip_mapping ev) f = touch_radio-AreFresh timeout ts s ev.radio_id ts f
handle-AreFresh timeout ts s (lrrp_position ev) f = elim (Option-cases ev.src) [
  | inl e ↦ rw e f
  | inr (x, e) ↦ rw e (touch_radio-AreFresh timeout ts s x ts f)
]
handle-AreFresh timeout ts s (lrrp_request ev) f =
    touch_radio-AreFresh timeout ts _ ev.tgt ts (touch_radio-AreFresh timeout ts s ev.src ts f)
handle-AreFresh timeout ts s (encryption ev) f =
    elim (Option-cases (get s.active_calls (call_key s ev.slot))) [
      | inl e ↦ rw (e, on_encryption) f
      | inr (c, e) ↦
          rw (e, on_encryption)
            (modify-All _ s.active_calls (call_key s ev.slot)
              (λ c. record c { is_encrypted = true }) (λ c h. h) f)
    ]
handle-AreFresh timeout ts s _ f = f

not_idle-AreFresh :
    (timeout now : ℕ) (d : Dict CallKey ActiveCall)
    → AreFresh timeout now (filter (λ e. not (ltb (e.1.last_frame_at + timeout) now)) d)
not_idle-AreFresh timeout now [] = tt
not_idle-AreFresh timeout now (e ∷ d) = ground (arith, not_idle-AreFresh timeout now d)

-- After an event every call in progress was heard within the timeout before that event.
pub apply-AreFresh :
    (s : StateManager) (ev : Event)
    → Distinct (keys s.active_calls)
    → AreFresh s.call_idle_timeout ev.timestamp (apply s ev).active_calls
unfolding apply note_event
apply-AreFresh s ev u = handle-AreFresh s.call_idle_timeout ev.timestamp _ ev.body (
    rw (expire_idle_calls-filter (note_event s ev) ev.timestamp u)
      (not_idle-AreFresh s.call_idle_timeout ev.timestamp s.active_calls))
