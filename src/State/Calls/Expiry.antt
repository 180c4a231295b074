-- ===== src/State/Calls/Expiry.antt =====
-- backend/state.py: `_expire_idle_calls` and a specification by one filter of the calls.
use dmr_decrep_shahar.Prelude.{
  ℕ, List, [], ◌∷◌, ◌++◌, map, filter, not, ◌≡◌, ap, ◌∙◌, All, Distinct, some, inl, inr, Member,
  append-nil, append_assoc,
}
use dmr_decrep_shahar.Dict.{Dict, keys, get, del, del_all}
use dmr_decrep_shahar.Dict.Laws.{get-del_ne}
use dmr_decrep_shahar.Dict.Filter.{del_all-filter, filter-get, filter-Distinct}
use dmr_decrep_shahar.State.Data.{call_key_key, ActiveCall, CallKey, Notice, ended, StateManager}
use dmr_decrep_shahar.State.Calls.{is_idle, end_call, end_calls, expire_idle_calls}

-- the notices for a list of ended calls
abbrev pub ends : Dict CallKey ActiveCall → List Notice
ends = map (λ e. ended e.1)

still_there :
    (d : Dict CallKey ActiveCall) (x : CallKey) (es : Dict CallKey ActiveCall)
    → ¬ Member x (keys es)
    → All (λ e. get d e.0 ≡ some e.1) es
    → All (λ e. get (del d x) e.0 ≡ some e.1) es
still_there d x [] n a = tt
still_there d x (e ∷ es) n a =
    (get-del_ne d x e.0 (λ p. n (inl p)) ∙ a.0, still_there d x es (λ m. n (inr m)) a.1)

end_call-some :
    (s : StateManager) (x : CallKey) (c : ActiveCall)
    → get s.active_calls x ≡ some c
    → end_call s x
      ≡ record s { active_calls = del s.active_calls x; notices = s.notices ++ ended c ∷ [] }
unfolding end_call
end_call-some s x c e = rw (e, end_call)

-- the state after the call of one entry has ended
abbrev without : StateManager → CallKey × ActiveCall → StateManager
without s e = record s {
  active_calls = del s.active_calls e.0;
  notices = s.notices ++ ended e.1 ∷ [];
}

end_calls-All :
    (s : StateManager) (es : Dict CallKey ActiveCall)
    → Distinct (keys es)
    → All (λ e. get s.active_calls e.0 ≡ some e.1) es
    → end_calls s (keys es)
      ≡ record s { active_calls = del_all s.active_calls (keys es); notices = s.notices ++ ends es }
unfolding end_calls del_all
end_calls-All s [] u a = rw append-nil
end_calls-All s (e ∷ es) u a =
    ap (λ t. end_calls t (keys es)) (end_call-some s e.0 e.1 a.0)
    ∙ end_calls-All (without s e) es u.1 (still_there s.active_calls e.0 es u.0 a.1)
    ∙ rw append_assoc

-- The calls that an expiry ends are those that have been silent for longer than the timeout, all of
-- them and in the order of the dict; it reports each one as ended, once, and changes nothing else.
pub expire_idle_calls-filter :
    (s : StateManager) (now : ℕ)
    → Distinct (keys s.active_calls)
    → expire_idle_calls s now ≡ record s {
      active_calls = filter (λ e. not (is_idle s now e.1)) s.active_calls;
      notices = s.notices ++ ends (filter (λ e. is_idle s now e.1) s.active_calls);
    }
unfolding expire_idle_calls
expire_idle_calls-filter s now u = rw (← del_all-filter (λ e. is_idle s now e.1) s.active_calls u) (
    end_calls-All s (filter (λ e. is_idle s now e.1) s.active_calls)
      (filter-Distinct (λ e. is_idle s now e.1) s.active_calls u)
      (filter-get (λ e. is_idle s now e.1) s.active_calls u))
