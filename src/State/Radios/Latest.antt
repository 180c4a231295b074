-- ===== src/State/Radios/Latest.antt =====
-- backend/state.py: the newest radio under the eviction that its own arrival makes.
use dmr_decrep_shahar.Prelude.{
  nat_key, ℕ, zero, suc, ◌+◌, ◌≤◌, ◌<◌, none, List, [], ◌∷◌, ◌++◌, length, take, ◌≡◌, refl, ap,
  subst, ◌∙◌, arith, inl, inr, All, Member, ltb, ltb→lt, Bool-cases, Option-cases, Member-take,
  Member-map, length-map, Member-append_right,
}
use dmr_decrep_shahar.Dict.{Dict, keys, values, get, put}
use dmr_decrep_shahar.Dict.Laws.{put-Distinct, none-not-Member, get-Member, keys-modify}
use dmr_decrep_shahar.Dict.Size.{length-put-none}
use dmr_decrep_shahar.Dict.Entries.{put-All}
use dmr_decrep_shahar.Dict.Build.{put-append}
use dmr_decrep_shahar.Sort.{insert, sorted, Member-sorted, length-sorted}
use dmr_decrep_shahar.State.Data.{Radio, StateManager}
use dmr_decrep_shahar.State.Radios.{
  new_radio, seen_before, batch_size, oldest_radios, evict_radios, insert_radio, update_radio,
  stamp_channel, touch_radio, see_at,
}
use dmr_decrep_shahar.State.Radios.Eviction.{evicted-or-kept, ids-values}
use dmr_decrep_shahar.State.Radios.Touch.{
  RadioIsOk, RadiosAreOk, Named-of, touch_radio-cases, new_radio-RadioIsOk,
}

insert-last :
    (a r : Radio) (xs : List Radio)
    → a.last_seen ≤ r.last_seen
    → insert seen_before a (xs ++ r ∷ []) ≡ insert seen_before a xs ++ r ∷ []
unfolding insert
insert-last a r [] h = ground arith
insert-last a r (x ∷ xs) h = ground (arith, insert-last a r xs h)

sorted-last :
    (r : Radio) (xs : List Radio)
    → All (λ a. a.last_seen ≤ r.last_seen) xs
    → sorted seen_before (xs ++ r ∷ []) ≡ sorted seen_before xs ++ r ∷ []
unfolding sorted
sorted-last r [] h = refl
sorted-last r (a ∷ xs) h =
    ap (insert seen_before a) (sorted-last r xs h.1) ∙ insert-last a r (sorted seen_before xs) h.0

take-append_le {ℓ} :
    {A : Type ℓ} (n : ℕ) (xs ys : List A) → n ≤ length xs → take n (xs ++ ys) ≡ take n xs
take-append_le zero xs ys h = refl
take-append_le (suc n) [] ys h = absurd (omega arith)
take-append_le (suc n) (x ∷ xs) ys h = ap (◌∷◌ x) (take-append_le n xs ys (omega arith))

values-append : (d : Dict ℕ Radio) (e : ℕ × Radio) → values (d ++ e ∷ []) ≡ values d ++ e.1 ∷ []
values-append [] e = refl
values-append (f ∷ d) e = ap (◌∷◌ f.1) (values-append d e)

one_over : (limit count : ℕ) → 0 < limit → count ≡ limit → batch_size (count + 1) limit ≤ count
unfolding batch_size
one_over limit count h e = omega arith

module _ (room : ℕ) (s : StateManager) (x ts : ℕ) (ok : RadiosAreOk room s.max_radios s.radios)
    (positive : 0 < s.max_radios) (latest : All (λ a. a.last_seen ≤ ts) (values s.radios)) where
  abbrev grown : StateManager
  grown = record s { radios = put s.radios x (new_radio x ts) }

  oldest_of_grown :
      get s.radios x ≡ none
      → length s.radios ≡ s.max_radios
      → (r : Radio) → Member r (oldest_radios grown)
      → Member r (values s.radios)
  unfolding oldest_radios
  oldest_of_grown absent full r m =
      let d = put-append s.radios x (new_radio x ts) (none-not-Member s.radios x absent) in
      let size = length-put-none s.radios x (new_radio x ts) absent in
      let order : sorted seen_before (values grown.radios)
          ≡ sorted seen_before (values s.radios) ++ new_radio x ts ∷ [] =
        ap (λ t. sorted seen_before (values t)) d
        ∙ ap (sorted seen_before) (values-append s.radios (x, new_radio x ts))
        ∙ sorted-last (new_radio x ts) (values s.radios) latest in
      let fits : batch_size (length grown.radios) s.max_radios
          ≤ length (sorted seen_before (values s.radios)) =
        rw size (
          omega (
            arith,
            one_over s.max_radios (length s.radios) positive full,
            length-sorted seen_before (values s.radios),
            length-map (λ (e : ℕ × Radio). e.1) s.radios,
          )) in
      Member-sorted seen_before r (values s.radios) (
        Member-take r _ _ (
          rw (take-append_le _ (sorted seen_before (values s.radios)) (new_radio x ts ∷ []) fits) at
            (rw order at m)))

  new_radio-survives :
      get s.radios x ≡ none
      → s.max_radios < length grown.radios
      → Member (x, new_radio x ts) (evict_radios grown).radios
  new_radio-survives absent over =
      let r = new_radio x ts in
      let ids = put-Distinct s.radios x r ok.ids in
      let each = put-All (RadioIsOk room) s.radios x r (new_radio-RadioIsOk room x ts) ok.each in
      let full : length s.radios ≡ s.max_radios =
        omega (arith, length-put-none s.radios x r absent, ok.within) in
      let here : Member (x, r) grown.radios =
        rw (put-append s.radios x r (none-not-Member s.radios x absent))
          (Member-append_right (x, r) s.radios ((x, r) ∷ []) (inl refl)) in
      elim (evicted-or-kept grown ids (Named-of room grown.radios each) over x r here) [
        | inl gone ↦ absurd (
            none-not-Member s.radios x absent (
              subst (Member x) (ids-values s.radios (Named-of room s.radios ok.each)) (
                Member-map (λ (r : Radio). r.id) r (values s.radios)
                  (oldest_of_grown absent full r gone))))
        | inr kept ↦ kept
      ]

  insert_radio-keeps : get s.radios x ≡ none → Member x (keys (insert_radio s x ts).radios)
  unfolding insert_radio
  insert_radio-keeps absent =
      let r = new_radio x ts in
      elim (Bool-cases (ltb s.max_radios (length grown.radios))) [
        | inl over ↦ rw over (
            Member-map (λ (e : ℕ × Radio). e.0) (x, r) _
              (new_radio-survives absent (ltb→lt _ _ over)))
        | inr fits ↦ rw fits (
            rw (put-append s.radios x r (none-not-Member s.radios x absent)) (
              Member-map (λ (e : ℕ × Radio). e.0) (x, r) (s.radios ++ (x, r) ∷ [])
                (Member-append_right (x, r) s.radios ((x, r) ∷ []) (inl refl))))
      ]

  stamp_channel-keeps : (t : StateManager) → keys (stamp_channel t x).radios ≡ keys t.radios
  unfolding stamp_channel
  stamp_channel-keeps t = elim (Option-cases t.cur_channel_label) [
    | inl e ↦ rw e
    | inr (label, e) ↦ rw e (unfold update_radio in keys-modify t.radios x _)
  ]

  -- If the cap on radios is positive and the dict is well-formed, then a radio that is touched at a time
  -- no earlier than that of any live radio is live afterwards, also when it is new and others have to
  -- leave.
  pub touch_radio-keeps_latest : Member x (keys (touch_radio s x ts).radios)
  touch_radio-keeps_latest =
      touch_radio-cases s x ts (λ t. Member x (keys t.radios))
        (λ e. rw (stamp_channel-keeps (insert_radio s x ts)) (insert_radio-keeps e))
        (λ r e. rw (stamp_channel-keeps (update_radio s x (see_at ts))) (
          unfold update_radio in
          rw (keys-modify s.radios x (see_at ts)) (get-Member s.radios x {v = r} e)))
