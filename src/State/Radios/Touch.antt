-- ===== src/State/Radios/Touch.antt =====
-- backend/state.py: the invariant of the live radios and the counts of `_touch_radio`.
use dmr_decrep_shahar.Prelude.{
  ℕ, ◌+◌, ◌≤◌, length, ◌≡◌, refl, sym, ap, subst, arith, All, Distinct, none, some, inl, inr,
  nat_key, [], ◌∷◌, ltb, leb, ltb→ge, Bool-cases, Option-cases,
}
use dmr_decrep_shahar.Dict.{Dict, keys, get, put}
use dmr_decrep_shahar.Dict.Laws.{put-Distinct, modify-Distinct, del_all-Distinct}
use dmr_decrep_shahar.Dict.Size.{length-put-none, length-modify}
use dmr_decrep_shahar.Dict.Entries.{put-All, modify-All, del_all-All}
use dmr_decrep_shahar.State.Data.{Radio, StateManager}
use dmr_decrep_shahar.State.Radios.{
  new_radio, see_at, evict_radios, update_radio, insert_radio, stamp_channel, touch_radio,
}
use dmr_decrep_shahar.State.Radios.Eviction.{Named, evict_radios-counts, evict_radios-keep}

-- a radio under its own id, with a trail of at most `room` positions
pub record RadioIsOk (room : ℕ) (e : ℕ × Radio) : Type 0 where
  pub named : e.1.id ≡ e.0
  pub span : e.1.first_seen ≤ e.1.last_seen
  pub trail : length e.1.position_history ≤ room

pub record RadiosAreOk (room limit : ℕ) (d : Dict ℕ Radio) : Type 0 where
  pub ids : Distinct (keys d)
  pub each : All (RadioIsOk room) d
  pub within : length d ≤ limit

pub Named-of : (room : ℕ) (d : Dict ℕ Radio) → All (RadioIsOk room) d → Named d
Named-of room [] a = tt
Named-of room (e ∷ d) a = (a.0.named, Named-of room d a.1)

module _ (room : ℕ) (s : StateManager) where
  pub update_radio-RadiosAreOk :
      (x : ℕ) (f : Radio → Radio)
      → ((r : Radio) → RadioIsOk room (x, r) → RadioIsOk room (x, f r))
      → RadiosAreOk room s.max_radios s.radios
      → RadiosAreOk room s.max_radios (update_radio s x f).radios
  unfolding update_radio
  update_radio-RadiosAreOk x f keep ok = record {
    ids = modify-Distinct s.radios x f ok.ids;
    each = modify-All (RadioIsOk room) s.radios x f keep ok.each;
    within = omega (arith, length-modify s.radios x f, ok.within);
  }

  pub evict_radios-RadiosAreOk :
      Distinct (keys s.radios)
      → All (RadioIsOk room) s.radios
      → RadiosAreOk room s.max_radios (evict_radios s).radios
  evict_radios-RadiosAreOk u a = record {
    ids = evict_radios-keep s (λ d. Distinct (keys d)) (λ xs. del_all-Distinct s.radios xs u) u;
    each =
        evict_radios-keep s (All (RadioIsOk room))
          (λ xs. del_all-All (RadioIsOk room) s.radios xs a) a;
    within = (evict_radios-counts s u (Named-of room s.radios a)).1;
  }

pub new_radio-RadioIsOk : (room x ts : ℕ) → RadioIsOk room (x, new_radio x ts)
new_radio-RadioIsOk room x ts = record { named = refl; span = omega arith; trail = omega arith }

see_at-RadioIsOk :
    (room x ts : ℕ) (r : Radio) → RadioIsOk room (x, r) → RadioIsOk room (x, see_at ts r)
see_at-RadioIsOk room x ts r ok = ground arith

module _ (room : ℕ) (s : StateManager) (x : ℕ) where
  insert_radio-RadiosAreOk :
      (ts : ℕ)
      → get s.radios x ≡ none
      → RadiosAreOk room s.max_radios s.radios
      → RadiosAreOk room s.max_radios (insert_radio s x ts).radios
  unfolding insert_radio
  insert_radio-RadiosAreOk ts absent ok =
      let s' = record s { radios = put s.radios x (new_radio x ts) } in
      let ids = put-Distinct s.radios x (new_radio x ts) ok.ids in
      let each =
        put-All (RadioIsOk room) s.radios x (new_radio x ts) (new_radio-RadioIsOk room x ts)
          ok.each in
      elim (Bool-cases (ltb s.max_radios (length s'.radios))) [
        | inl over ↦ rw over (evict_radios-RadiosAreOk room s' ids each)
        | inr fits ↦ rw fits (record { ids = ids; each = each; within = ltb→ge _ _ fits })
      ]

  stamp_channel-RadiosAreOk :
      RadiosAreOk room s.max_radios s.radios
      → RadiosAreOk room s.max_radios (stamp_channel s x).radios
  unfolding stamp_channel
  stamp_channel-RadiosAreOk ok = elim (Option-cases s.cur_channel_label) [
    | inl e ↦ rw e ok
    | inr (label, e) ↦ rw e (update_radio-RadiosAreOk room s x _ (λ r h. ground arith) ok)
  ]

-- `t` is `s` but for its radios
abbrev pub SameButRadios : StateManager → StateManager → Type 0
SameButRadios s t =
    t ≡ record s { radios = t.radios; radios_evicted_total = t.radios_evicted_total }

evict_radios-frame : (s : StateManager) → SameButRadios s (evict_radios s)
unfolding evict_radios
evict_radios-frame s = elim (Bool-cases (leb (length s.radios) s.max_radios)) [
  | inl e ↦ rw e
  | inr e ↦ rw e
]

module _ (s : StateManager) (x : ℕ) where
  pub update_radio-frame : (f : Radio → Radio) → SameButRadios s (update_radio s x f)
  unfolding update_radio
  update_radio-frame f = refl

  pub stamp_channel-frame : SameButRadios s (stamp_channel s x)
  unfolding stamp_channel
  stamp_channel-frame = elim (Option-cases s.cur_channel_label) [
    | inl e ↦ rw e
    | inr (label, e) ↦ rw e
  ]

SameButRadios-trans :
    (s t u : StateManager) → SameButRadios s t → SameButRadios t u → SameButRadios s u
SameButRadios-trans s t u p q = cc

module _ (s : StateManager) (x ts : ℕ) where
  insert_radio-frame : SameButRadios s (insert_radio s x ts)
  unfolding insert_radio
  insert_radio-frame =
      let s' = record s { radios = put s.radios x (new_radio x ts) } in
      elim (Bool-cases (ltb s.max_radios (length s'.radios))) [
        | inl e ↦ rw e (evict_radios-frame s')
        | inr e ↦ rw e
      ]

  -- the two ways in which a radio is touched
  pub touch_radio-cases :
      (P : StateManager → Type 0)
      → (get s.radios x ≡ none → P (stamp_channel (insert_radio s x ts) x))
      → ((r : Radio) → get s.radios x ≡ some r → P (stamp_channel (update_radio s x (see_at ts)) x))
      → P (touch_radio s x ts)
  unfolding touch_radio
  touch_radio-cases P new known = elim (Option-cases (get s.radios x)) [
    | inl e ↦ rw e (new e)
    | inr (r, e) ↦ rw e (known r e)
  ]

  pub touch_radio-frame : SameButRadios s (touch_radio s x ts)
  touch_radio-frame =
      touch_radio-cases (SameButRadios s)
        (λ _.
          SameButRadios-trans s (insert_radio s x ts) _ insert_radio-frame
            (stamp_channel-frame (insert_radio s x ts) x))
        (λ _ _.
          SameButRadios-trans s (update_radio s x (see_at ts)) _
            (update_radio-frame s x (see_at ts))
            (stamp_channel-frame (update_radio s x (see_at ts)) x))

  -- Touching a radio keeps the invariant of the live radios, whether the radio is known, is new, or
  -- is new and makes others leave.
  pub touch_radio-RadiosAreOk :
      (room : ℕ)
      → RadiosAreOk room s.max_radios s.radios
      → RadiosAreOk room s.max_radios (touch_radio s x ts).radios
  touch_radio-RadiosAreOk room ok =
      touch_radio-cases (λ t. RadiosAreOk room s.max_radios t.radios)
        (λ e.
          let limit = ap (λ (t : StateManager). t.max_radios) insert_radio-frame in
          subst (λ m. RadiosAreOk room m (stamp_channel (insert_radio s x ts) x).radios) limit
            (stamp_channel-RadiosAreOk room (insert_radio s x ts) x (
              subst (λ m. RadiosAreOk room m (insert_radio s x ts).radios) (sym limit)
                (insert_radio-RadiosAreOk room s x ts e ok))))
        (λ r e.
          unfold update_radio in
          stamp_channel-RadiosAreOk room (update_radio s x (see_at ts)) x
            (update_radio-RadiosAreOk room s x (see_at ts) (see_at-RadioIsOk room x ts) ok))

  length-stamp_channel :
      (t : StateManager)
      → (length (stamp_channel t x).radios ≡ length t.radios)
        × ((stamp_channel t x).radios_evicted_total ≡ t.radios_evicted_total)
  unfolding stamp_channel
  length-stamp_channel t = elim (Option-cases t.cur_channel_label) [
    | inl e ↦ rw e (refl, refl)
    | inr (label, e) ↦ rw e (unfold update_radio in (length-modify t.radios x _, refl))
  ]

  insert_radio-counts :
      (room : ℕ)
      → get s.radios x ≡ none
      → RadiosAreOk room s.max_radios s.radios
      → length (insert_radio s x ts).radios + (insert_radio s x ts).radios_evicted_total
        ≡ length s.radios + s.radios_evicted_total + 1
  unfolding insert_radio
  insert_radio-counts room absent ok =
      let s' = record s { radios = put s.radios x (new_radio x ts) } in
      let ids = put-Distinct s.radios x (new_radio x ts) ok.ids in
      let each =
        put-All (RadioIsOk room) s.radios x (new_radio x ts) (new_radio-RadioIsOk room x ts)
          ok.each in
      let counts = (evict_radios-counts s' ids (Named-of room s'.radios each)).0 in
      let size = length-put-none s.radios x (new_radio x ts) absent in
      elim (Bool-cases (ltb s.max_radios (length s'.radios))) [
        | inl over ↦ rw over (omega (arith, counts, size))
        | inr fits ↦ rw fits (omega (arith, size))
      ]

  -- Touching a radio adds one to the number of radios ever kept if the radio was not live, and
  -- nothing if it was: live radios and evicted ones are counted together.
  pub touch_radio-counts :
      (room : ℕ)
      → RadiosAreOk room s.max_radios s.radios
      → length (touch_radio s x ts).radios + (touch_radio s x ts).radios_evicted_total
        ≡ length s.radios
          + s.radios_evicted_total
          + (elim (get s.radios x) [ none ↦ 1 | some _ ↦ 0 ])
  touch_radio-counts room ok =
      touch_radio-cases
        (λ t.
          length t.radios + t.radios_evicted_total
          ≡ length s.radios
            + s.radios_evicted_total
            + (elim (get s.radios x) [ none ↦ 1 | some _ ↦ 0 ]))
        (λ e.
          let stamped = length-stamp_channel (insert_radio s x ts) in
          rw e (omega (arith, insert_radio-counts room e ok, stamped)))
        (λ r e.
          let stamped = length-stamp_channel (update_radio s x (see_at ts)) in
          rw e
            (unfold update_radio in omega (arith, length-modify s.radios x (see_at ts), stamped)))
