-- ===== src/State/Snapshot/Broadcast.antt =====
-- backend/state.py: the trimmed form of `snapshot`: its radios and their trails.
use dmr_decrep_shahar.Prelude.{
  Member-take, ◌+◌, some, true, false, Option-cases, ◌⊎◌, ℕ, ◌≤◌, ◌<◌, min, List, [], ◌∷◌, map,
  length, take, ltb, ltb→lt, ltb→ge, leb→le, leb→gt, if◌then◌else◌, ◌≡◌, refl, sym, ap, subst, ◌∙◌,
  arith, inl, inr, Member, Distinct, Distinct-take, All-Member, Member-map, Member-map_inv,
  Member-split, take-map, length-take, length-map, Bool-cases, nat_key,
}
use dmr_decrep_shahar.Dict.{Dict, keys, values}
use dmr_decrep_shahar.Dict.Build.{from_entries-Distinct}
use dmr_decrep_shahar.Sort.{
  sorted, Member-sorted, length-sorted, sorted-Distinct, sorted-Member, Ordered, sorted-Ordered,
  Ordered-take-drop,
}
use dmr_decrep_shahar.State.Data.{Position, Radio, StateManager}
use dmr_decrep_shahar.State.Radios.Eviction.{Named, ids-values}
use dmr_decrep_shahar.State.Snapshot.{
  seen_after, broadcast_source, trail_fresh, trim_radio, broadcast_radios,
}

abbrev own_entry : Radio → ℕ × Radio
own_entry r = (r.id, r)

entry-own :
    (entry : ℕ × Radio) (x : ℕ) (q r : Radio)
    → (x, r) ≡ own_entry q
    → q ≡ entry.1
    → entry.1.id ≡ entry.0
    → entry ≡ (x, r)
entry-own (i, a) x q r same value name = sym (same ∙ ap own_entry value ∙ ap (λ j. (j, a)) name)

keys-own_entry : (rs : List Radio) → keys (map own_entry rs) ≡ map (λ r. r.id) rs
keys-own_entry [] = refl
keys-own_entry (r ∷ rs) = ap (◌∷◌ r.id) (keys-own_entry rs)

keys-map_values : (f : Radio → Radio) (d : Dict ℕ Radio) → keys (map (λ e. (e.0, f e.1)) d) ≡ keys d
keys-map_values f [] = refl
keys-map_values f (e ∷ d) = ap (◌∷◌ e.0) (keys-map_values f d)

-- A trimmed radio is the radio with its trail kept if its last position is fresh, and dropped if not.
pub trim_radio_lem :
    (s : StateManager) (now : ℕ) (r : Radio)
    → trim_radio s now r
      ≡ record r { position_history = if trail_fresh s now r then r.position_history else [] }
unfolding trim_radio
trim_radio_lem s now r = ground arith

-- the last position that is known of a radio is not older than the limit
abbrev pub HasFreshFix : StateManager → ℕ → Radio → Type 0
HasFreshFix s now r =
    (p : Position) × (r.last_position ≡ some p) × (now ≤ p.at + s.broadcast_trail_max_age)

-- the second radio is the first one with its trail if that is fresh, and with none if not
abbrev pub IsTrimmed : StateManager → ℕ → Radio → Radio → Type 0
IsTrimmed s now r t =
    (t ≡ record r { position_history = t.position_history })
    × ((HasFreshFix s now r × (t.position_history ≡ r.position_history))
        ⊎ ((¬ HasFreshFix s now r) × (t.position_history ≡ [])))

HasFreshFix-trail_fresh :
    (s : StateManager) (now : ℕ) (r : Radio) → trail_fresh s now r ≡ true → HasFreshFix s now r
unfolding trail_fresh
HasFreshFix-trail_fresh s now r h = elim (Option-cases r.last_position) [
  | inl e ↦ absurd (cc (rw e at h))
  | inr (p, e) ↦ (p, e, leb→le _ _ (rw e at h))
]

not-HasFreshFix :
    (s : StateManager) (now : ℕ) (r : Radio) → trail_fresh s now r ≡ false → ¬ HasFreshFix s now r
unfolding trail_fresh
not-HasFreshFix s now r h (p, e, fresh) = absurd (omega (arith, leb→gt _ _ (rw e at h), fresh))

trim_radio-IsTrimmed :
    (s : StateManager) (now : ℕ) (r : Radio) → IsTrimmed s now r (trim_radio s now r)
trim_radio-IsTrimmed s now r = elim (Bool-cases (trail_fresh s now r)) [
  | inl b ↦ rw (trim_radio_lem s now r, b) (refl, inl (HasFreshFix-trail_fresh s now r b, refl))
  | inr b ↦ rw (trim_radio_lem s now r, b) (refl, inr (not-HasFreshFix s now r b, refl))
]

module _ (s : StateManager) (u : Distinct (keys s.radios)) (n : Named s.radios) where
  abbrev shown : List Radio
  shown = take s.broadcast_max_radios (sorted seen_after (values s.radios))

  shown-Distinct : Distinct (map (λ (r : Radio). r.id) shown)
  shown-Distinct = rw (← take-map (λ (r : Radio). r.id) s.broadcast_max_radios _) (
      Distinct-take _ _ (
        sorted-Distinct seen_after (λ (r : Radio). r.id) (values s.radios)
          (rw (ids-values s.radios n) u)))

  -- above the limit the source is the first radios of the sorted list, each under its own id
  source_over : s.broadcast_max_radios < length s.radios → broadcast_source s ≡ map own_entry shown
  unfolding broadcast_source
  source_over over = elim (Bool-cases (ltb s.broadcast_max_radios (length s.radios))) [
    | inl e ↦ rw e (from_entries-Distinct (map own_entry shown) (rw keys-own_entry shown-Distinct))
    | inr e ↦ absurd (omega (arith, ltb→ge _ _ e))
  ]

  source_within : length s.radios ≤ s.broadcast_max_radios → broadcast_source s ≡ s.radios
  unfolding broadcast_source
  source_within fits = elim (Bool-cases (ltb s.broadcast_max_radios (length s.radios))) [
    | inl e ↦ absurd (omega (arith, ltb→lt _ _ e))
    | inr e ↦ rw e
  ]

  source-Distinct : Distinct (keys (broadcast_source s))
  source-Distinct = elim (Bool-cases (ltb s.broadcast_max_radios (length s.radios))) [
    | inl e ↦ rw (source_over (ltb→lt _ _ e)) (rw keys-own_entry shown-Distinct)
    | inr e ↦ rw (source_within (ltb→ge _ _ e)) u
  ]

  length-source : length (broadcast_source s) ≡ min s.broadcast_max_radios (length s.radios)
  length-source = elim (Bool-cases (ltb s.broadcast_max_radios (length s.radios))) [
    | inl e ↦ rw (source_over (ltb→lt _ _ e)) (
        omega (
          arith,
          length-map own_entry shown,
          length-take s.broadcast_max_radios (sorted seen_after (values s.radios)),
          length-sorted seen_after (values s.radios),
          length-map (λ (e : ℕ × Radio). e.1) s.radios,
        ))
    | inr e ↦ rw (source_within (ltb→ge _ _ e)) (omega (arith, ltb→ge _ _ e))
  ]

  same_radios :
      (now : ℕ)
      → broadcast_radios s now ≡ map (λ e. (e.0, trim_radio s now e.1)) (broadcast_source s)
  unfolding broadcast_radios
  same_radios now =
      from_entries-Distinct (map (λ e. (e.0, trim_radio s now e.1)) (broadcast_source s))
        (rw (keys-map_values (trim_radio s now) (broadcast_source s)) source-Distinct)

  source-Member : (x : ℕ) (r : Radio) → Member (x, r) (broadcast_source s) → Member (x, r) s.radios
  source-Member x r m = elim (Bool-cases (ltb s.broadcast_max_radios (length s.radios))) [
    | inl e ↦
        let (q, here, same) =
          Member-map_inv own_entry (x, r) shown (rw (source_over (ltb→lt _ _ e)) at m) in
        let (entry, known, value) =
          Member-map_inv (λ (e : ℕ × Radio). e.1) q s.radios
            (Member-sorted seen_after q (values s.radios) (Member-take q _ _ here)) in
        let name : entry.1.id ≡ entry.0 =
          All-Member (λ (e : ℕ × Radio). e.1.id ≡ e.0) s.radios entry n known in
        subst (λ t. Member t s.radios) (entry-own entry x q r same value name) known
    | inr e ↦ rw (source_within (ltb→ge _ _ e)) at m
  ]

  -- Let the dict of radios have distinct keys, and each radio under its own id. Then each radio of the
  -- broadcast is one of the dict, under its id, and nothing of it is changed but the
  -- trail, which is whole if the radio has a position that is no older than the limit, and empty if
  -- not. The broadcast holds as many radios as the limit allows, or all if they are fewer.
  pub broadcast_radios_lem :
      (now : ℕ)
      → (length (broadcast_radios s now) ≡ min s.broadcast_max_radios (length s.radios))
        × ((x : ℕ) (t : Radio)
            → Member (x, t) (broadcast_radios s now)
            → (r : Radio) × Member (x, r) s.radios × IsTrimmed s now r t)
  broadcast_radios_lem now = (
    rw (same_radios now) (length-map _ (broadcast_source s) ∙ length-source),
    λ x t m.
        let (e, here, same) =
          Member-map_inv (λ (e : ℕ × Radio). (e.0, trim_radio s now e.1)) (x, t)
            (broadcast_source s) (rw (same_radios now) at m) in
        let trimmed : trim_radio s now e.1 ≡ t = sym (ap (λ (y : ℕ × Radio). y.1) same) in
        (
          e.1,
          source-Member x e.1 (
              subst (λ i. Member (i, e.1) (broadcast_source s))
                (sym (ap (λ (y : ℕ × Radio). y.0) same)) here),
          subst (IsTrimmed s now e.1) trimmed (trim_radio-IsTrimmed s now e.1),
        ),
  )

  by_last_seen :
      Ordered (λ (a b : Radio). b.last_seen ≤ a.last_seen) (sorted seen_after (values s.radios))
  by_last_seen =
      sorted-Ordered seen_after (λ (a b : Radio). b.last_seen ≤ a.last_seen) (λ a b h. leb→le _ _ h)
        (λ a b h. omega (arith, leb→gt b.last_seen a.last_seen h)) (λ a b c p q. omega arith)
        (values s.radios)

  in_shown :
      (over : s.broadcast_max_radios < length s.radios) (x : ℕ) (r : Radio)
      → Member (x, r) (broadcast_source s)
      → Member r shown
  in_shown over x r m =
      let (a, here, e) = Member-map_inv own_entry (x, r) shown (rw (source_over over) at m) in
      subst (λ t. Member t shown) (sym (ap (λ (t : ℕ × Radio). t.1) e)) here

  -- Let the dict of radios have distinct keys, and each radio under its own id. Above the limit, a radio
  -- that the broadcast leaves out was heard no later than any that it shows.
  pub broadcast_source-newest_first :
      (over : s.broadcast_max_radios < length s.radios) (x y : ℕ) (r q : Radio)
      → Member (x, r) (broadcast_source s)
      → Member (y, q) s.radios
      → ¬ Member (y, q) (broadcast_source s)
      → q.last_seen ≤ r.last_seen
  broadcast_source-newest_first over x y r q m known out =
      let all = sorted seen_after (values s.radios) in
      let name : q.id ≡ y = All-Member (λ (e : ℕ × Radio). e.1.id ≡ e.0) s.radios (y, q) n known in
      elim (Member-split q s.broadcast_max_radios all (
        sorted-Member seen_after q (values s.radios)
          (Member-map (λ (e : ℕ × Radio). e.1) (y, q) s.radios known))) [
            | inl early ↦ absurd (
                out (
                  rw (source_over over) (
                    subst (λ i. Member (i, q) (map own_entry shown)) name
                      (Member-map own_entry q shown early))))
            | inr late ↦
                Ordered-take-drop (λ (a b : Radio). b.last_seen ≤ a.last_seen)
                  s.broadcast_max_radios all r q by_last_seen (in_shown over x r m) late
          ]
