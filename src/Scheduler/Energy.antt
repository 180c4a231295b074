-- ===== src/Scheduler/Energy.antt =====
-- backend/rf/scheduler.py: `update_energy` and `_reference_now`.
use dmr_decrep_shahar.Prelude.{
  nat_key, string_key, ℕ, ◌≤◌, max, String, true, some, List, [], ◌∷◌, ◌≡◌, sym, ap, arith, inl,
  inr, Member, leb, if◌then◌else◌, Bool-cases,
}
use dmr_decrep_shahar.Dict.{Dict, values}
use dmr_decrep_shahar.Scheduler.{
  Scheduler, bump, bump_powers, update_energy, max_value, reference_now,
}
use dmr_decrep_shahar.Scheduler.Laws.{SeenBy, bump-SeenBy, bump-seen}

le-max_value : (m : ℕ) (ts : List ℕ) → m ≤ max_value m ts
unfolding max_value
le-max_value m [] = omega arith
le-max_value m (t ∷ ts) = omega (arith, le-max_value (max m t) ts)

max_value-bound : (m : ℕ) (ts : List ℕ) (t : ℕ) → Member t ts → t ≤ max_value m ts
unfolding max_value
max_value-bound m (u ∷ ts) t (inl e) = rw e (omega (arith, le-max_value (max m u) ts))
max_value-bound m (u ∷ ts) t (inr l) = max_value-bound (max m u) ts t l
max_value-bound m [] t l = elim l [ ]

-- The moment that decisions refer to in a replay is not before any activity seen.
pub reference_now-latest :
    (last : Dict String ℕ) (wall t : ℕ) → Member t (values last) → t ≤ reference_now last wall
unfolding reference_now
reference_now-latest ((l, u) ∷ last) wall t (inl e) = rw e (le-max_value u (values last))
reference_now-latest ((l, u) ∷ last) wall t (inr m) = max_value-bound u (values last) t m
reference_now-latest [] wall t m = elim m [ ]

bump_powers-SeenBy :
    (threshold : ℕ) (last powers : Dict String ℕ) (l : String) (ts t : ℕ)
    → SeenBy last l t
    → SeenBy (bump_powers threshold last powers ts) l t
unfolding bump_powers
bump_powers-SeenBy threshold last [] l ts t h = h
bump_powers-SeenBy threshold last ((label, p) ∷ powers) l ts t h =
    elim (Bool-cases (leb threshold p)) [
      | inl e ↦ rw e (
          bump_powers-SeenBy threshold (bump last (some label) ts) powers l ts t
            (bump-SeenBy last (some label) l ts t h))
      | inr e ↦ rw e (bump_powers-SeenBy threshold last powers l ts t h)
    ]

bump_powers-above :
    (threshold : ℕ) (last powers : Dict String ℕ) (l : String) (p ts : ℕ)
    → Member (l, p) powers
    → threshold ≤ p
    → SeenBy (bump_powers threshold last powers ts) l ts
unfolding bump_powers
bump_powers-above threshold last ((label, q) ∷ powers) l p ts (inl e) h =
    let same : label ≡ l = ap (λ y. y.0) (sym e) in
    let above : leb threshold q ≡ true = rw (← ap (λ y. y.1) e) (ground arith) in
    rw above (
      bump_powers-SeenBy threshold (bump last (some label) ts) powers l ts ts
        (rw same (bump-seen last l ts)))
bump_powers-above threshold last ((label, q) ∷ powers) l p ts (inr m) h =
    bump_powers-above threshold (if leb threshold q then bump last (some label) ts else last) powers
      l p ts m h
bump_powers-above threshold last [] l p ts m h = elim m [ ]

-- A measurement at or above the threshold makes its channel active from that moment on, whatever
-- other channels were measured with it.
pub update_energy-above :
    (s : Scheduler) (powers : Dict String ℕ) (l : String) (p ts : ℕ)
    → Member (l, p) powers
    → s.energy_threshold ≤ p
    → SeenBy (update_energy s powers ts).last_active l ts
unfolding update_energy
update_energy-above s powers l p ts m h =
    bump_powers-above s.energy_threshold s.last_active powers l p ts m h
