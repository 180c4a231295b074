-- ===== src/State/Calls/Voice.antt =====
-- backend/state.py: the table of calls, key by key, in `_on_voice_call`.
use dmr_decrep_shahar.Prelude.{
  ℕ, ◌+◌, not, Option, none, some, ◌≡◌, ◌≢◌, refl, sym, ap, ◌∙◌, arith, inl, inr, ite, if_pos,
  if_neg, Bool-cases, Option-cases, if◌then◌else◌, ◌==◌, Distinct, subst, ltb,
}
use dmr_decrep_shahar.Dict.{keys, get, put, modify}
use dmr_decrep_shahar.Dict.Laws.{get-put, get-modify, get-modify-none}
use dmr_decrep_shahar.Dict.Filter.{kept, get-filter}
use dmr_decrep_shahar.Models.{VoiceCallEvent}
use dmr_decrep_shahar.State.Data.{call_key_key, ActiveCall, CallKey, StateManager}
use dmr_decrep_shahar.State.Radios.{update_radio}
use dmr_decrep_shahar.State.Radios.Touch.{touch_radio-frame}
use dmr_decrep_shahar.State.Calls.{
  call_key, is_idle, same_parties, next_frame, new_call, start_call, voice_frame, on_voice_call,
  count_frame, expire_idle_calls,
}
use dmr_decrep_shahar.State.Calls.Expiry.{expire_idle_calls-filter}
use dmr_decrep_shahar.State.Calls.Invariant.{key_of}

-- the call on its key after a voice frame: the same call one frame on, or a new one
abbrev pub heard : StateManager → VoiceCallEvent → ℕ → Option ActiveCall → ActiveCall
heard s ev ts none = new_call s ev ts
heard s ev ts (some c) = if same_parties ev c then next_frame ev ts c else new_call s ev ts

pub start_call-calls :
    (s : StateManager) (ev : VoiceCallEvent) (ts : ℕ) (o : Option ActiveCall)
    → (start_call s o ev ts).active_calls
      ≡ put s.active_calls (call_key s ev.slot) (new_call s ev ts)
unfolding start_call
start_call-calls s ev ts none = refl
start_call-calls s ev ts (some c) = refl

get-modify-ite :
    (s : StateManager) (x k : CallKey) (f : ActiveCall → ActiveCall) (c : ActiveCall)
    → get s.active_calls x ≡ some c
    → get (modify s.active_calls x f) k
      ≡ ite (call_key_key.dec x k) (some (f c)) (get s.active_calls k)
get-modify-ite s x k f c e = elim (call_key_key.dec x k) [
  | yes p ↦
      rw (if_pos _ p)
        (get-modify s.active_calls x k f c (rw (← p) e) ∙ if_pos (call_key_key.dec x k) p _ _)
  | no p ↦ rw (if_neg _ p) (elim (Option-cases (get s.active_calls k)) [
    | inl q ↦ get-modify-none s.active_calls x k f q ∙ sym q
    | inr (w, q) ↦ get-modify s.active_calls x k f w q ∙ if_neg (call_key_key.dec x k) p _ _ ∙ sym q
  ])
]

pub voice_frame-get :
    (s : StateManager) (ev : VoiceCallEvent) (ts : ℕ) (k : CallKey)
    → get (voice_frame s ev ts).active_calls k
      ≡ ite
          (call_key_key.dec (call_key s ev.slot) k)
          (some (heard s ev ts (get s.active_calls (call_key s ev.slot))))
          (get s.active_calls k)
unfolding voice_frame
voice_frame-get s ev ts k =
    let key = call_key s ev.slot in
    let started = λ (o : Option ActiveCall).
      ap (λ d. get d k) (start_call-calls s ev ts o)
      ∙ get-put s.active_calls key k (new_call s ev ts) in
    elim (Option-cases (get s.active_calls key)) [
      | inl e ↦ rw (e, voice_frame) (started none)
      | inr (c, e) ↦ elim (Bool-cases (same_parties ev c)) [
        | inl same ↦ rw (e, voice_frame) (rw same (get-modify-ite s key k (next_frame ev ts) c e))
        | inr other ↦ rw (e, voice_frame) (rw other (started (some c)))
      ]
    ]

pub call_key_lem : (s : StateManager) (slot : ℕ) → call_key s slot ≡ key_of s.cur_channel_label slot
unfolding call_key
call_key_lem s slot = elim (Option-cases s.cur_channel_label) [
  | inl e ↦ rw e
  | inr (label, e) ↦ rw e
]

pub on_voice_call-get :
    (s : StateManager) (ev : VoiceCallEvent) (ts : ℕ) (k : CallKey)
    → ev.src ≢ 0
    → get (on_voice_call s ev ts).active_calls k
      ≡ ite
          (call_key_key.dec (call_key s ev.slot) k)
          (some (heard s ev ts (get s.active_calls (call_key s ev.slot))))
          (get s.active_calls k)
unfolding on_voice_call call_key
on_voice_call-get s ev ts k h = elim (Bool-cases (ev.src == 0)) [
  | inl e ↦ absurd (h (ground arith))
  | inr e ↦
      rw (e, on_voice_call)
        (subst
          (λ (t : StateManager).
            get (voice_frame (update_radio t ev.src (count_frame ev)) ev ts).active_calls k
            ≡ ite (call_key_key.dec (call_key s ev.slot) k)
                (some (heard s ev ts (get s.active_calls (call_key s ev.slot))))
                (get s.active_calls k))
          (sym (touch_radio-frame s ev.src ts)) (voice_frame-get _ ev ts k))
]

-- a call that has been heard within the timeout
abbrev pub unexpired : ℕ → ℕ → Option ActiveCall → Option ActiveCall
unexpired timeout now none = none
unexpired timeout now (some c) = if ltb (c.last_frame_at + timeout) now then none else some c

pub expire_idle_calls-get :
    (s : StateManager) (now : ℕ) (k : CallKey)
    → Distinct (keys s.active_calls)
    → get (expire_idle_calls s now).active_calls k
      ≡ unexpired s.call_idle_timeout now (get s.active_calls k)
expire_idle_calls-get s now k u =
    rw (expire_idle_calls-filter s now u)
      (get-filter (λ e. not (is_idle s now e.1)) s.active_calls k u ∙ keep (get s.active_calls k))
  where
    keep :
        (o : Option ActiveCall)
        → kept (λ e. not (is_idle s now e.1)) k o ≡ unexpired s.call_idle_timeout now o
    keep none = refl
    keep (some c) = ground arith
