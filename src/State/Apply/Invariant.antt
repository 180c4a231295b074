-- ===== src/State/Apply/Invariant.antt =====
-- backend/state.py: the invariant of the manager under `apply` and `tick`.
use dmr_decrep_shahar.Prelude.{
  ℕ, ◌-◌, ◌<◌, Option, none, some, [], ◌∷◌, ◌++◌, length, ◌≡◌, sym, ap, subst, arith, inl, inr,
  if_pos, if_neg, String_discrete, Bool-cases, Option-cases, ◌==◌, length-drop,
}
use dmr_decrep_shahar.Models.{
  Event, Body, voice_call, preamble_csbk, VoiceCallEvent, EncryptionEvent, data_header, ip_mapping,
  lrrp_position, lrrp_request, encryption,
}
use dmr_decrep_shahar.Dict.{get}
use dmr_decrep_shahar.State.Data.{call_key_key, ActiveCall, Position, Radio, StateManager}
use dmr_decrep_shahar.State.Radios.{touch_radio, update_radio}
use dmr_decrep_shahar.State.Radios.Touch.{
  RadioIsOk, RadiosAreOk, update_radio-RadiosAreOk, touch_radio-RadiosAreOk, touch_radio-frame,
}
use dmr_decrep_shahar.State.Calls.{
  expire_idle_calls, on_voice_call, on_encryption, start_call, voice_frame, call_key, same_parties,
  count_frame,
}
use dmr_decrep_shahar.State.Calls.Expiry.{expire_idle_calls-filter}
use dmr_decrep_shahar.State.Calls.Invariant.{
  CallsAreOk, expire_idle_calls-CallsAreOk, start_call-CallsAreOk, CallsAreOk-next_frame,
  CallsAreOk-mark,
}
use dmr_decrep_shahar.State.Apply.{
  add_position, handle, note_event, apply, tick, on_preamble_csbk, on_ip_mapping, on_lrrp_position,
  on_lrrp_request, on_site_info, on_channel_status, on_lsn_status, on_bank_call, on_quality,
}

pub record IsOk (s : StateManager) : Type 0 where
  pub trail : 0 < s.position_history_length
  pub radios : RadiosAreOk s.position_history_length s.max_radios s.radios
  pub calls : CallsAreOk s.active_calls s.notices

touch_radio-IsOk : (s : StateManager) (x ts : ℕ) → IsOk s → IsOk (touch_radio s x ts)
touch_radio-IsOk s x ts ok = subst IsOk (sym (touch_radio-frame s x ts)) (record {
  trail = ok.trail;
  radios = touch_radio-RadiosAreOk s x ts s.position_history_length ok.radios;
  calls = ok.calls;
})

update_radio-IsOk :
    (s : StateManager) (x : ℕ) (f : Radio → Radio)
    → ((r : Radio)
        → RadioIsOk s.position_history_length (x, r)
        → RadioIsOk s.position_history_length (x, f r))
    → IsOk s
    → IsOk (update_radio s x f)
unfolding update_radio
update_radio-IsOk s x f keep ok = record {
  trail = ok.trail;
  radios = update_radio-RadiosAreOk s.position_history_length s x f keep ok.radios;
  calls = ok.calls;
}

add_position-RadioIsOk :
    (room x : ℕ) (pos : Position) (r : Radio)
    → 0 < room
    → RadioIsOk room (x, r)
    → RadioIsOk room (x, add_position room pos r)
unfolding add_position
add_position-RadioIsOk room x pos r some_room ok = record {
  named = ok.named;
  span = ok.span;
  trail =
      let history = r.position_history ++ pos ∷ [] in
      ground (arith, length-drop (length history - room) history);
}

touch_and_update-IsOk :
    (s : StateManager) (x ts : ℕ) (f : Radio → Radio)
    → ((r : Radio)
        → RadioIsOk s.position_history_length (x, r)
        → RadioIsOk s.position_history_length (x, f r))
    → IsOk s
    → IsOk (update_radio (touch_radio s x ts) x f)
touch_and_update-IsOk s x ts f keep ok =
    update_radio-IsOk (touch_radio s x ts) x f
      (subst (λ (room : ℕ). (r : Radio) → RadioIsOk room (x, r) → RadioIsOk room (x, f r))
        (sym (ap (λ (t : StateManager). t.position_history_length) (touch_radio-frame s x ts)))
        keep)
      (touch_radio-IsOk s x ts ok)

expire_idle_calls-IsOk : (s : StateManager) (now : ℕ) → IsOk s → IsOk (expire_idle_calls s now)
expire_idle_calls-IsOk s now ok =
    let same = expire_idle_calls-filter s now ok.calls.distinct in
    let calls = expire_idle_calls-CallsAreOk s now ok.calls in
    rw same (record { trail = ok.trail; radios = ok.radios; calls = rw same at calls })

start_call-IsOk :
    (s : StateManager) (ev : VoiceCallEvent) (ts : ℕ) (o : Option ActiveCall)
    → get s.active_calls (call_key s ev.slot) ≡ o
    → IsOk s
    → IsOk (start_call s o ev ts)
unfolding start_call
start_call-IsOk s ev ts none e ok = record {
  trail = ok.trail;
  radios =
      update_radio-RadiosAreOk s.position_history_length s ev.src _
        (λ r h. record { named = h.named; span = h.span; trail = h.trail }) ok.radios;
  calls = start_call-CallsAreOk s ev ts none e ok.calls;
}
start_call-IsOk s ev ts (some c) e ok = record {
  trail = ok.trail;
  radios =
      update_radio-RadiosAreOk s.position_history_length s ev.src _
        (λ r h. record { named = h.named; span = h.span; trail = h.trail }) ok.radios;
  calls = start_call-CallsAreOk s ev ts (some c) e ok.calls;
}

voice_frame-IsOk :
    (s : StateManager) (ev : VoiceCallEvent) (ts : ℕ) → IsOk s → IsOk (voice_frame s ev ts)
unfolding voice_frame
voice_frame-IsOk s ev ts ok = elim (Option-cases (get s.active_calls (call_key s ev.slot))) [
  | inl e ↦ rw (e, voice_frame) (start_call-IsOk s ev ts none e ok)
  | inr (c, e) ↦ elim (Bool-cases (same_parties ev c)) [
    | inl same ↦
        rw (e, voice_frame)
          (rw same (record {
            trail = ok.trail;
            radios = ok.radios;
            calls =
                CallsAreOk-next_frame s.active_calls s.notices (call_key s ev.slot) ev ts ok.calls;
          }))
    | inr other ↦ rw (e, voice_frame) (rw other (start_call-IsOk s ev ts (some c) e ok))
  ]
]

on_voice_call-IsOk :
    (s : StateManager) (ev : VoiceCallEvent) (ts : ℕ) → IsOk s → IsOk (on_voice_call s ev ts)
unfolding on_voice_call
on_voice_call-IsOk s ev ts ok = elim (Bool-cases (ev.src == 0)) [
  | inl e ↦ rw (e, on_voice_call) ok
  | inr e ↦
      rw (e, on_voice_call)
        (voice_frame-IsOk _ ev ts (
          touch_and_update-IsOk s ev.src ts (count_frame ev)
            (λ r h. record { named = h.named; span = h.span; trail = h.trail }) ok))
]

on_encryption-IsOk : (s : StateManager) (ev : EncryptionEvent) → IsOk s → IsOk (on_encryption s ev)
unfolding on_encryption
on_encryption-IsOk s ev ok = elim (Option-cases (get s.active_calls (call_key s ev.slot))) [
  | inl e ↦ rw (e, on_encryption) ok
  | inr (c, e) ↦
      rw (e, on_encryption)
        (record {
          trail = ok.trail;
          radios =
              update_radio-RadiosAreOk s.position_history_length s c.src _
                (λ r h. record { named = h.named; span = h.span; trail = h.trail }) ok.radios;
          calls = CallsAreOk-mark s.active_calls s.notices (call_key s ev.slot) ok.calls;
        })
]

handle-IsOk : (s : StateManager) (ts : ℕ) (b : Body) → IsOk s → IsOk (handle s ts b)
unfolding handle on_preamble_csbk on_ip_mapping on_lrrp_position on_lrrp_request on_site_info
    on_channel_status on_lsn_status on_bank_call on_quality
handle-IsOk s ts (voice_call ev) ok = on_voice_call-IsOk s ev ts ok
handle-IsOk s ts (preamble_csbk ev) ok =
    let src = touch_radio-IsOk s ev.src ts ok in
    elim (String_discrete ev.addressing "Individual") [
      | yes p ↦ rw (if_pos _ p) (touch_radio-IsOk _ ev.tgt ts src)
      | no p ↦ rw (if_neg _ p) src
    ]
handle-IsOk s ts (data_header ev) ok = touch_radio-IsOk s ev.src ts ok
handle-IsOk s ts (ip_mapping ev) ok =
    touch_and_update-IsOk s ev.radio_id ts _
      (λ r h. record { named = h.named; span = h.span; trail = h.trail }) ok
handle-IsOk s ts (lrrp_position ev) ok = elim (Option-cases ev.src) [
  | inl e ↦ rw e ok
  | inr (x, e) ↦ rw e (
      touch_and_update-IsOk s x ts _
        (λ r h. add_position-RadioIsOk s.position_history_length x _ r ok.trail h) ok)
]
handle-IsOk s ts (lrrp_request ev) ok =
    touch_radio-IsOk _ ev.tgt ts (touch_radio-IsOk s ev.src ts ok)
handle-IsOk s ts (encryption ev) ok = on_encryption-IsOk s ev ok
handle-IsOk s ts _ ok = record { trail = ok.trail; radios = ok.radios; calls = ok.calls }

note_event-IsOk : (s : StateManager) (ev : Event) → IsOk s → IsOk (note_event s ev)
unfolding note_event
note_event-IsOk s ev ok = record { trail = ok.trail; radios = ok.radios; calls = ok.calls }

-- Every event keeps the invariant.
pub apply-IsOk : (s : StateManager) (ev : Event) → IsOk s → IsOk (apply s ev)
unfolding apply
apply-IsOk s ev ok =
    handle-IsOk _ ev.timestamp ev.body
      (expire_idle_calls-IsOk (note_event s ev) ev.timestamp (note_event-IsOk s ev ok))

pub tick-IsOk : (s : StateManager) (now : ℕ) → IsOk s → IsOk (tick s now)
unfolding tick
tick-IsOk s now ok = expire_idle_calls-IsOk s now ok
