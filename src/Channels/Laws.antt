-- ===== src/Channels/Laws.antt =====
-- backend/channel_plan.py: the validators, the lookups and the geometry of a plan.
use dmr_decrep_shahar.Prelude.{
  string_key, ℕ, ◌+◌, ◌-◌, ◌*◌, ◌≤◌, max, min, String, true, false, some, List, [], ◌∷◌, map, ◌≡◌,
  ◌≢◌, arith, inl, inr, All, Member, Distinct, if_neg, String_discrete, contains-Member, Member-map,
  subst, ap, Bool-cases, Option-cases,
}
use dmr_decrep_shahar.Channels.{
  Channel, ChannelPlan, validate_channel, validate_channels, has_duplicate, validate_plan, max_freq,
  min_freq, center_half_hz, fits_in_bandwidth, by_label,
}

-- the label is not empty and the frequency is in the range of the receiver
pub record ChannelIsValid (c : Channel) : Type 0 where
  pub named : c.label ≢ ""
  pub low : 1_000 ≤ c.frequency_hz
  pub high : c.frequency_hz ≤ 2_000_000_000

validate_channel-ChannelIsValid : (c d : Channel) → validate_channel c ≡ some d → ChannelIsValid d
unfolding validate_channel
validate_channel-ChannelIsValid c d h = ground arith

validate_channels-All :
    (raw cs : List Channel) → validate_channels raw ≡ some cs → All ChannelIsValid cs
unfolding validate_channels
validate_channels-All [] cs h = ground arith
validate_channels-All (c ∷ raw) cs h = elim (Option-cases (validate_channel c)) [
  | inl e ↦ ground arith
  | inr (d, e) ↦ elim (Option-cases (validate_channels raw)) [
    | inl f ↦ ground arith
    | inr (ds, f) ↦
        let found : d ∷ ds ≡ cs = ground arith in
        subst (All ChannelIsValid) found
          (validate_channel-ChannelIsValid c d e, validate_channels-All raw ds f)
  ]
]

has_duplicate-Distinct : (ls : List String) → has_duplicate ls ≡ false → Distinct ls
unfolding has_duplicate
has_duplicate-Distinct [] h = tt
has_duplicate-Distinct (l ∷ ls) h =
    ((λ m. ground (arith, contains-Member ls l m)), has_duplicate-Distinct ls (ground arith))

-- Every plan that loads has channels with labels that are not empty and all differ, on frequencies
-- in the range of the receiver.
pub validate_plan-IsValid :
    (raw : List Channel) (plan : ChannelPlan)
    → validate_plan raw ≡ some plan
    → All ChannelIsValid plan × Distinct (map (λ c. c.label) plan)
unfolding validate_plan
validate_plan-IsValid raw plan h = elim (Option-cases (validate_channels raw)) [
  | inl e ↦ ground arith
  | inr (cs, e) ↦ elim (Bool-cases (has_duplicate (map (λ c. c.label) cs))) [
    | inl d ↦ ground arith
    | inr d ↦
        let found : cs ≡ plan = ground arith in
        subst (λ p. All ChannelIsValid p × Distinct (map (λ c. c.label) p)) found
          (validate_channels-All raw cs e, has_duplicate-Distinct _ d)
  ]
]

-- In a plan with distinct labels each channel is found by its label.
pub by_label_lem :
    (plan : ChannelPlan) (c : Channel)
    → Distinct (map (λ c. c.label) plan)
    → Member c plan
    → by_label plan c.label ≡ some c
unfolding by_label
by_label_lem (d ∷ plan) c u (inl e) = ground (arith, ap (λ (c : Channel). c.label) e)
by_label_lem (d ∷ plan) c u (inr m) = elim (String_discrete d.label c.label) [
  | yes p ↦ absurd (u.0 (rw p (Member-map (λ (c : Channel). c.label) c plan m)))
  | no p ↦ rw (if_neg _ p) (by_label_lem plan c u.1 m)
]
by_label_lem [] c u m = elim m [ ]

le-max_freq : (m : ℕ) (cs : List Channel) → m ≤ max_freq m cs
unfolding max_freq
le-max_freq m [] = omega arith
le-max_freq m (c ∷ cs) = omega (arith, le-max_freq (max m c.frequency_hz) cs)

max_freq-bound :
    (m : ℕ) (cs : List Channel) (c : Channel) → Member c cs → c.frequency_hz ≤ max_freq m cs
unfolding max_freq
max_freq-bound m (d ∷ cs) c (inl e) = rw e (omega (arith, le-max_freq (max m d.frequency_hz) cs))
max_freq-bound m (d ∷ cs) c (inr l) = max_freq-bound (max m d.frequency_hz) cs c l
max_freq-bound m [] c l = elim l [ ]

min_freq-le : (m : ℕ) (cs : List Channel) → min_freq m cs ≤ m
unfolding min_freq
min_freq-le m [] = omega arith
min_freq-le m (c ∷ cs) = omega (arith, min_freq-le (min m c.frequency_hz) cs)

min_freq-bound :
    (m : ℕ) (cs : List Channel) (c : Channel) → Member c cs → min_freq m cs ≤ c.frequency_hz
unfolding min_freq
min_freq-bound m (d ∷ cs) c (inl e) = rw e (omega (arith, min_freq-le (min m d.frequency_hz) cs))
min_freq-bound m (d ∷ cs) c (inr l) = min_freq-bound (min m d.frequency_hz) cs c l
min_freq-bound m [] c l = elim l [ ]

-- If a plan of two or more channels fits in a bandwidth with a guard, then a capture of that bandwidth
-- around the middle of the band holds each channel with the guard on both of its sides (all in half
-- hertz).
pub fits_in_bandwidth-covers :
    (first second : Channel) (rest : List Channel) (c : Channel) (bandwidth guard center : ℕ)
    → fits_in_bandwidth (first ∷ second ∷ rest) bandwidth guard ≡ true
    → center_half_hz (first ∷ second ∷ rest) ≡ some center
    → Member c (first ∷ second ∷ rest)
    → (2 * c.frequency_hz + 2 * guard ≤ center + bandwidth)
      × (center + 2 * guard ≤ 2 * c.frequency_hz + bandwidth)
unfolding fits_in_bandwidth center_half_hz
fits_in_bandwidth-covers first second rest c bandwidth guard center fits mid m =
    let high = max_freq first.frequency_hz (second ∷ rest) in
    let low = min_freq first.frequency_hz (second ∷ rest) in
    let centered : high + low ≡ center = ground arith in
    let narrow : high - low + 2 * guard ≤ bandwidth = ground arith in
    let above : c.frequency_hz ≤ high = elim m [
      | inl e ↦ rw e (le-max_freq first.frequency_hz (second ∷ rest))
      | inr l ↦ max_freq-bound first.frequency_hz (second ∷ rest) c l
    ] in
    let below : low ≤ c.frequency_hz = elim m [
      | inl e ↦ rw e (min_freq-le first.frequency_hz (second ∷ rest))
      | inr l ↦ min_freq-bound first.frequency_hz (second ∷ rest) c l
    ] in
    (omega arith, omega arith)
