-- ===== src/State/Radios/Eviction.antt =====
-- backend/state.py: the radios that `_evict_radios` removes and those it keeps.
use dmr_decrep_shahar.Prelude.{
  ℕ, ◌+◌, ◌≤◌, ◌<◌, List, [], ◌∷◌, map, length, drop, ◌≡◌, refl, All-intro, Member-split, arith,
  All, All-Member, Member, Distinct-map_inj, contains-cases, ◌∙◌, Distinct, Distinct-take, leb,
  leb→le, leb→gt, Bool-cases, Member-take, length-map, length-take, take-map, nat_key, Member-map,
  Member-map_inv, inl, inr, ◌⊎◌,
}
use dmr_decrep_shahar.Dict.{Dict, keys, values, del_all}
use dmr_decrep_shahar.Dict.Size.{
  length-del_all, Member-del_all, del_all_not-Member, Member-of_del_all,
}
use dmr_decrep_shahar.Sort.{
  sorted, length-sorted, sorted-Distinct, Member-sorted, Ordered, sorted-Ordered, sorted-Member,
  Ordered-take-drop,
}
use dmr_decrep_shahar.State.Data.{Radio, StateManager}
use dmr_decrep_shahar.State.Radios.{seen_before, batch_size, oldest_radios, evict_radios}

-- the key of each radio is its `id`
abbrev pub Named : Dict ℕ Radio → Type 0
Named = All (λ e. e.1.id ≡ e.0)

pub ids-values : (d : Dict ℕ Radio) → Named d → map (λ r. r.id) (values d) ≡ keys d
ids-values [] n = refl
ids-values (e ∷ d) n = cc (n.0, ids-values d n.1)

pub batch_size_bounds :
    (count limit : ℕ)
    → limit < count
    → (batch_size count limit ≤ count)
      × (count ≤ limit + batch_size count limit)
      × (0 < batch_size count limit)
unfolding batch_size
batch_size_bounds count limit h = ground arith

module _ (s : StateManager) (u : Distinct (keys s.radios)) (n : Named s.radios) where
  oldest_ids-Distinct : Distinct (map (λ r. r.id) (oldest_radios s))
  unfolding oldest_radios
  oldest_ids-Distinct =
      rw (← take-map (λ (r : Radio). r.id) (batch_size (length s.radios) s.max_radios) _) (
        Distinct-take _ _ (
          sorted-Distinct seen_before (λ (r : Radio). r.id) (values s.radios)
            (rw (ids-values s.radios n) u)))

  pub oldest_radios-Member : (r : Radio) → Member r (oldest_radios s) → Member r (values s.radios)
  unfolding oldest_radios
  oldest_radios-Member r m = Member-sorted seen_before r (values s.radios) (Member-take r _ _ m)

  oldest_ids-present : All (λ x. Member x (keys s.radios)) (map (λ r. r.id) (oldest_radios s))
  oldest_ids-present = All-intro _ _ λ x m.
      let (r, here, e) = Member-map_inv (λ (r : Radio). r.id) x (oldest_radios s) m in
      rw e (
        rw (← ids-values s.radios n)
          (Member-map (λ (r : Radio). r.id) r (values s.radios) (oldest_radios-Member r here)))

  length-oldest :
      s.max_radios < length s.radios
      → length (oldest_radios s) ≡ batch_size (length s.radios) s.max_radios
  unfolding oldest_radios
  length-oldest h = omega (
    arith,
    length-take (batch_size (length s.radios) s.max_radios) (sorted seen_before (values s.radios)),
    length-sorted seen_before (values s.radios),
    length-map (λ (e : ℕ × Radio). e.1) s.radios,
    batch_size_bounds (length s.radios) s.max_radios h,
  )

  -- An eviction keeps the sum of live and evicted radios, and leaves at most `max_radios` of them.
  pub evict_radios-counts :
      (length (evict_radios s).radios + (evict_radios s).radios_evicted_total
        ≡ length s.radios + s.radios_evicted_total)
      × (length (evict_radios s).radios ≤ s.max_radios)
  unfolding evict_radios
  evict_radios-counts = elim (Bool-cases (leb (length s.radios) s.max_radios)) [
    | inl fits ↦ rw fits (refl, leb→le _ _ fits)
    | inr over ↦
        let gone = length-del_all s.radios _ oldest_ids-Distinct oldest_ids-present in
        let size = length-oldest (leb→gt _ _ over) in
        let ids = length-map (λ (r : Radio). r.id) (oldest_radios s) in
        let bounds = batch_size_bounds (length s.radios) s.max_radios (leb→gt _ _ over) in
        rw over (omega arith, omega arith)
  ]

  evict_radios-radios :
      s.max_radios < length s.radios
      → (evict_radios s).radios ≡ del_all s.radios (map (λ r. r.id) (oldest_radios s))
  unfolding evict_radios
  evict_radios-radios over = ground arith

  -- Above the cap, a radio of the dict is among the evicted or still in the dict.
  pub evicted-or-kept :
      (over : s.max_radios < length s.radios) (x : ℕ) (r : Radio)
      → Member (x, r) s.radios
      → Member r (oldest_radios s) ⊎ Member (x, r) (evict_radios s).radios
  evicted-or-kept over x r m = elim (contains-cases (map (λ r. r.id) (oldest_radios s)) x) [
    | inl gone ↦
        let (o, here, e) = Member-map_inv (λ (r : Radio). r.id) x (oldest_radios s) gone in
        inl (rw (same o here e) here)
    | inr kept ↦ inr (rw (evict_radios-radios over) (Member-of_del_all s.radios _ (x, r) kept m))
  ]
    where
      same : (o : Radio) → Member o (oldest_radios s) → x ≡ o.id → r ≡ o
      same o here e =
          Distinct-map_inj (λ (r : Radio). r.id) (values s.radios) r o
            (rw (ids-values s.radios n) u) (Member-map (λ (e : ℕ × Radio). e.1) (x, r) s.radios m)
            (oldest_radios-Member o here)
            (All-Member (λ (e : ℕ × Radio). e.1.id ≡ e.0) s.radios (x, r) n m ∙ e)

  by_last_seen :
      Ordered (λ (a b : Radio). a.last_seen ≤ b.last_seen) (sorted seen_before (values s.radios))
  by_last_seen =
      sorted-Ordered seen_before (λ (a b : Radio). a.last_seen ≤ b.last_seen)
        (λ a b h. leb→le _ _ h) (λ a b h. omega (arith, leb→gt a.last_seen b.last_seen h))
        (λ a b c p q. omega arith) (values s.radios)

  kept-not-oldest :
      (over : s.max_radios < length s.radios) (x : ℕ) (r : Radio)
      → Member (x, r) (evict_radios s).radios
      → ¬ Member r (oldest_radios s)
  kept-not-oldest over x r m g =
      let after = rw (evict_radios-radios over) at m in
      let named =
        All-Member (λ (e : ℕ × Radio). e.1.id ≡ e.0) s.radios (x, r) n
          (Member-del_all s.radios _ (x, r) after) in
      del_all_not-Member s.radios (map (λ r. r.id) (oldest_radios s)) x u
        (rw (← named) (Member-map (λ (r : Radio). r.id) r (oldest_radios s) g))
        (Member-map (λ (e : ℕ × Radio). e.0) (x, r) _ after)

  kept-later :
      (over : s.max_radios < length s.radios) (x : ℕ) (r : Radio)
      → Member (x, r) (evict_radios s).radios
      → Member r
          (drop (batch_size (length s.radios) s.max_radios) (sorted seen_before (values s.radios)))
  unfolding oldest_radios
  kept-later over x r m =
      let after = rw (evict_radios-radios over) at m in
      let here =
        Member-map (λ (e : ℕ × Radio). e.1) (x, r) s.radios
          (Member-del_all s.radios _ (x, r) after) in
      elim (Member-split r (batch_size (length s.radios) s.max_radios)
        (sorted seen_before (values s.radios))
        (sorted-Member seen_before r (values s.radios) here)) [
          | inl g ↦ absurd (kept-not-oldest over x r m g)
          | inr l ↦ l
        ]

  -- Let the dict of radios have distinct keys, and each radio under its own id. Above the cap, whoever is
  -- evicted was heard no later than whoever is kept.
  pub evict_radios-oldest_first :
      (over : s.max_radios < length s.radios) (gone : Radio) (x : ℕ) (kept : Radio)
      → Member gone (oldest_radios s)
      → Member (x, kept) (evict_radios s).radios
      → gone.last_seen ≤ kept.last_seen
  unfolding oldest_radios
  evict_radios-oldest_first over gone x kept g m =
      Ordered-take-drop (λ (a b : Radio). a.last_seen ≤ b.last_seen)
        (batch_size (length s.radios) s.max_radios) (sorted seen_before (values s.radios)) gone kept
        by_last_seen g (kept-later over x kept m)

-- An eviction leaves the radios alone, or deletes some keys.
pub evict_radios-keep :
    (s : StateManager) (P : Dict ℕ Radio → Type 0)
    → ((xs : List ℕ) → P (del_all s.radios xs))
    → P s.radios
    → P (evict_radios s).radios
unfolding evict_radios
evict_radios-keep s P deleted kept = elim (Bool-cases (leb (length s.radios) s.max_radios)) [
  | inl fits ↦ rw fits kept
  | inr over ↦ rw over (deleted _)
]
