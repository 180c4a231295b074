-- ===== src/State/Calls/Invariant.antt =====
-- backend/state.py: the invariant of the calls in progress and of the callbacks on them.
use dmr_decrep_shahar.Prelude.{
  Bool, ℕ, ◌+◌, ◌≤◌, String, Option, none, some, List, [], ◌∷◌, ◌++◌, length, filter, not, ◌≡◌,
  arith, inl, inr, All, Distinct, Bool-cases, Option-cases, true,
}
use dmr_decrep_shahar.Dict.{Dict, keys, get, put, modify}
use dmr_decrep_shahar.Dict.Laws.{put-Distinct, modify-Distinct}
use dmr_decrep_shahar.Dict.Size.{length-put-none, length-put-some, length-modify}
use dmr_decrep_shahar.Dict.Entries.{put-All, modify-All}
use dmr_decrep_shahar.Dict.Filter.{filter-Distinct}
use dmr_decrep_shahar.Models.{VoiceCallEvent}
use dmr_decrep_shahar.State.Data.{
  call_key_key, ActiveCall, CallKey, bare, on_channel, Notice, started, ended, StateManager,
}
use dmr_decrep_shahar.State.Calls.{
  call_key, is_idle, next_frame, new_call, start_call, expire_idle_calls,
}
use dmr_decrep_shahar.State.Calls.Expiry.{ends, expire_idle_calls-filter}
use dmr_decrep_shahar.State.Calls.Notices.{
  starts_in, ends_in, starts_in-append, ends_in-append, counts-ends,
}

abbrev pub key_of : Option String → ℕ → CallKey
key_of none slot = bare slot
key_of (some label) slot = on_channel label slot

-- a call under the key of its channel and slot, with at least one frame
pub record CallIsOk (e : CallKey × ActiveCall) : Type 0 where
  pub keyed : e.0 ≡ key_of e.1.channel_label e.1.slot
  pub heard : 1 ≤ e.1.frame_count

pub record CallsAreOk (d : Dict CallKey ActiveCall) (ns : List Notice) : Type 0 where
  pub distinct : Distinct (keys d)
  pub each : All CallIsOk d
  pub balanced : starts_in ns ≡ ends_in ns + length d

length-filter-not :
    (p : CallKey × ActiveCall → Bool) (d : Dict CallKey ActiveCall)
    → length (filter p d) + length (filter (λ e. not (p e)) d) ≡ length d
length-filter-not p [] = omega arith
length-filter-not p (e ∷ d) = ground (arith, length-filter-not p d)

filter-All :
    (P : CallKey × ActiveCall → Type 0) (p : CallKey × ActiveCall → Bool)
    (d : Dict CallKey ActiveCall)
    → All P d
    → All P (filter p d)
filter-All P p [] a = tt
filter-All P p (e ∷ d) a = elim (Bool-cases (p e)) [
  | inl h ↦ rw h (a.0, filter-All P p d a.1)
  | inr h ↦ rw h (filter-All P p d a.1)
]

pub expire_idle_calls-CallsAreOk :
    (s : StateManager) (now : ℕ)
    → CallsAreOk s.active_calls s.notices
    → CallsAreOk (expire_idle_calls s now).active_calls (expire_idle_calls s now).notices
expire_idle_calls-CallsAreOk s now ok =
    let idle = λ (e : CallKey × ActiveCall). is_idle s now e.1 in
    rw (expire_idle_calls-filter s now ok.distinct) (record {
      distinct = filter-Distinct (λ e. not (idle e)) s.active_calls ok.distinct;
      each = filter-All CallIsOk (λ e. not (idle e)) s.active_calls ok.each;
      balanced = omega (
        arith,
        ok.balanced,
        starts_in-append s.notices (ends (filter idle s.active_calls)),
        ends_in-append s.notices (ends (filter idle s.active_calls)),
        counts-ends (filter idle s.active_calls),
        length-filter-not idle s.active_calls,
      );
    })

new_call-keyed :
    (s : StateManager) (ev : VoiceCallEvent) (ts : ℕ)
    → CallIsOk (call_key s ev.slot, new_call s ev ts)
unfolding call_key
new_call-keyed s ev ts = record {
  keyed = elim (Option-cases s.cur_channel_label) [ inl e ↦ rw e | inr (label, e) ↦ rw e ];
  heard = omega arith;
}

module _ (d : Dict CallKey ActiveCall) (ns : List Notice) (x : CallKey) where
  CallsAreOk-start :
      (c : ActiveCall)
      → get d x ≡ none
      → CallIsOk (x, c)
      → CallsAreOk d ns
      → CallsAreOk (put d x c) (ns ++ started c ∷ [])
  unfolding starts_in ends_in
  CallsAreOk-start c e new ok = record {
    distinct = put-Distinct d x c ok.distinct;
    each = put-All CallIsOk d x c new ok.each;
    balanced = omega (
      arith,
      ok.balanced,
      starts_in-append ns (started c ∷ []),
      ends_in-append ns (started c ∷ []),
      length-put-none d x c e,
    );
  }

  CallsAreOk-replace :
      (w c : ActiveCall)
      → get d x ≡ some w
      → CallIsOk (x, c)
      → CallsAreOk d ns
      → CallsAreOk (put d x c) ((ns ++ ended w ∷ []) ++ started c ∷ [])
  unfolding starts_in ends_in
  CallsAreOk-replace w c e new ok = record {
    distinct = put-Distinct d x c ok.distinct;
    each = put-All CallIsOk d x c new ok.each;
    balanced = omega (
      arith,
      ok.balanced,
      starts_in-append (ns ++ ended w ∷ []) (started c ∷ []),
      ends_in-append (ns ++ ended w ∷ []) (started c ∷ []),
      starts_in-append ns (ended w ∷ []),
      ends_in-append ns (ended w ∷ []),
      length-put-some d x c e,
    );
  }

  CallsAreOk-modify :
      (f : ActiveCall → ActiveCall)
      → ((c : ActiveCall) → CallIsOk (x, c) → CallIsOk (x, f c))
      → CallsAreOk d ns
      → CallsAreOk (modify d x f) ns
  CallsAreOk-modify f keep ok = record {
    distinct = modify-Distinct d x f ok.distinct;
    each = modify-All CallIsOk d x f keep ok.each;
    balanced = omega (arith, ok.balanced, length-modify d x f);
  }

  pub CallsAreOk-next_frame :
      (ev : VoiceCallEvent) (ts : ℕ)
      → CallsAreOk d ns
      → CallsAreOk (modify d x (next_frame ev ts)) ns
  CallsAreOk-next_frame ev ts =
      CallsAreOk-modify (next_frame ev ts) λ c h. record { keyed = h.keyed; heard = omega arith }

  pub CallsAreOk-mark :
      CallsAreOk d ns → CallsAreOk (modify d x (λ c. record c { is_encrypted = true })) ns
  CallsAreOk-mark = CallsAreOk-modify _ λ c h. record { keyed = h.keyed; heard = h.heard }

pub start_call-CallsAreOk :
    (s : StateManager) (ev : VoiceCallEvent) (ts : ℕ) (o : Option ActiveCall)
    → get s.active_calls (call_key s ev.slot) ≡ o
    → CallsAreOk s.active_calls s.notices
    → CallsAreOk (start_call s o ev ts).active_calls (start_call s o ev ts).notices
unfolding start_call
start_call-CallsAreOk s ev ts none e ok =
    CallsAreOk-start s.active_calls s.notices _ (new_call s ev ts) e (new_call-keyed s ev ts) ok
start_call-CallsAreOk s ev ts (some c) e ok =
    CallsAreOk-replace s.active_calls s.notices _ c (new_call s ev ts) e (new_call-keyed s ev ts) ok
