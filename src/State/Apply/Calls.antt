-- ===== src/State/Apply/Calls.antt =====
-- backend/state.py: the calls in progress, key by key, after `apply`.
use dmr_decrep_shahar.Prelude.{
  ℕ, ◌+◌, ◌<◌, false, Option, none, some, ◌≡◌, ◌≢◌, refl, ap, ◌∙◌, arith, ite, if_pos, Distinct,
}
use dmr_decrep_shahar.Dict.{keys, get}
use dmr_decrep_shahar.Models.{Event, VoiceCallEvent, voice_call}
use dmr_decrep_shahar.State.Data.{call_key_key, ActiveCall, CallKey, StateManager}
use dmr_decrep_shahar.State.Calls.{call_key, expire_idle_calls, new_call}
use dmr_decrep_shahar.State.Calls.Expiry.{expire_idle_calls-filter}
use dmr_decrep_shahar.State.Calls.Invariant.{key_of}
use dmr_decrep_shahar.State.Calls.Voice.{
  heard, unexpired, call_key_lem, on_voice_call-get, expire_idle_calls-get,
}
use dmr_decrep_shahar.State.Apply.{note_event, handle, apply}

-- a new call shows only the channel context of the state
heard-channel :
    (s t : StateManager) (v : VoiceCallEvent) (ts : ℕ) (o : Option ActiveCall)
    → s.cur_channel_label ≡ t.cur_channel_label
    → s.cur_frequency ≡ t.cur_frequency
    → heard s v ts o ≡ heard t v ts o
heard-channel s t v ts none p q = ground arith
heard-channel s t v ts (some c) p q = ground arith

-- An event with a voice frame of a radio other than 0 leaves, on the key of its channel and slot,
-- the call that was there one frame on, if that had not run out and has the same parties, and
-- otherwise a new call; on every other key it leaves the call that was there, unless that ran out.
pub apply-voice_call :
    (s : StateManager) (ev : Event) (v : VoiceCallEvent) (k : CallKey)
    → Distinct (keys s.active_calls)
    → ev.body ≡ voice_call v
    → v.src ≢ 0
    → let key = key_of ev.channel_label v.slot in
      let left =
        λ (x : CallKey). unexpired s.call_idle_timeout ev.timestamp (get s.active_calls x) in
      get (apply s ev).active_calls k
      ≡ ite
          (call_key_key.dec key k)
          (some (heard (note_event s ev) v ev.timestamp (left key)))
          (left k)
unfolding apply note_event handle
apply-voice_call s ev v k u b n =
    let s' = expire_idle_calls (note_event s ev) ev.timestamp in
    let same = expire_idle_calls-filter (note_event s ev) ev.timestamp u in
    let key : call_key s' v.slot ≡ key_of ev.channel_label v.slot =
      call_key_lem s' v.slot ∙ ap (λ t. key_of t.cur_channel_label v.slot) same in
    let left = λ (x : CallKey). expire_idle_calls-get (note_event s ev) ev.timestamp x u in
    rw b (
      on_voice_call-get s' v ev.timestamp k n
      ∙ rw (key, left k, left (key_of ev.channel_label v.slot))
          (ap
            (λ (c : ActiveCall).
              ite (call_key_key.dec (key_of ev.channel_label v.slot) k) (some c)
                (unexpired s.call_idle_timeout ev.timestamp (get s.active_calls k)))
            (heard-channel s' (note_event s ev) v ev.timestamp _
              (ap (λ t. t.cur_channel_label) same) (ap (λ t. t.cur_frequency) same))))

-- A call that has run out leaves nothing behind: the next voice frame on its key, from whomever,
-- starts a call with one frame and without the mark of an encrypted call.
pub apply-voice_call_after_gap :
    (s : StateManager) (ev : Event) (v : VoiceCallEvent) (old : ActiveCall)
    → Distinct (keys s.active_calls)
    → ev.body ≡ voice_call v
    → v.src ≢ 0
    → get s.active_calls (key_of ev.channel_label v.slot) ≡ some old
    → old.last_frame_at + s.call_idle_timeout < ev.timestamp
    → (c : ActiveCall) × (get (apply s ev).active_calls (key_of ev.channel_label v.slot) ≡ some c)
      × (c.is_encrypted ≡ false)
      × (c.frame_count ≡ 1)
      × (c.started_at ≡ ev.timestamp)
unfolding note_event
apply-voice_call_after_gap s ev v old u b n e late =
    let key = key_of ev.channel_label v.slot in
    let after = apply-voice_call s ev v key u b n in
    let gone : unexpired s.call_idle_timeout ev.timestamp (get s.active_calls key) ≡ none =
      rw e (ground arith) in
    (
      new_call (note_event s ev) v ev.timestamp,
      after
          ∙ if_pos (call_key_key.dec key key) refl _ _
          ∙ ap (λ o. some (heard (note_event s ev) v ev.timestamp o)) gone,
      refl,
      refl,
      refl,
    )
