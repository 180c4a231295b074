-- ===== src/State/Calls/Notices.antt =====
-- backend/state.py: the callbacks on calls, counted by their kind.
use dmr_decrep_shahar.Prelude.{ℕ, ◌+◌, List, [], ◌∷◌, ◌++◌, length, ◌≡◌, refl, arith}
use dmr_decrep_shahar.Dict.{Dict}
use dmr_decrep_shahar.State.Data.{ActiveCall, CallKey, Notice, started, ended}
use dmr_decrep_shahar.State.Calls.Expiry.{ends}

unfoldable pub starts_in : List Notice → ℕ
starts_in [] = 0
starts_in (started c ∷ ns) = starts_in ns + 1
starts_in (ended c ∷ ns) = starts_in ns

unfoldable pub ends_in : List Notice → ℕ
ends_in [] = 0
ends_in (started c ∷ ns) = ends_in ns
ends_in (ended c ∷ ns) = ends_in ns + 1

pub starts_in-append : (ns ms : List Notice) → starts_in (ns ++ ms) ≡ starts_in ns + starts_in ms
unfolding starts_in
starts_in-append [] ms = omega arith
starts_in-append (started c ∷ ns) ms = omega (arith, starts_in-append ns ms)
starts_in-append (ended c ∷ ns) ms = starts_in-append ns ms

pub ends_in-append : (ns ms : List Notice) → ends_in (ns ++ ms) ≡ ends_in ns + ends_in ms
unfolding ends_in
ends_in-append [] ms = omega arith
ends_in-append (started c ∷ ns) ms = ends_in-append ns ms
ends_in-append (ended c ∷ ns) ms = omega (arith, ends_in-append ns ms)

pub counts-ends :
    (d : Dict CallKey ActiveCall) → (starts_in (ends d) ≡ 0) × (ends_in (ends d) ≡ length d)
unfolding starts_in ends_in
counts-ends [] = (refl, refl)
counts-ends (e ∷ d) = let (p, q) = counts-ends d in (p, omega arith)
