-- ===== src/Dict/Filter.antt =====
-- Deleting keys of a dict and filtering its entries.
use dmr_decrep_shahar.Prelude.{
  Bool, not, List, [], ◌∷◌, if_pos, if_neg, Key, ◌≡◌, refl, sym, ap, inl, inr, Member, Distinct,
  All, filter, if◌then◌else◌, Bool-cases, Option, none, some, Member-filter, Member-map_inv,
  Member-map, All-intro, ◌∙◌,
}
use dmr_decrep_shahar.Dict.{Dict, keys, get, del, del_all}
use dmr_decrep_shahar.Dict.Laws.{Member-get, not-Member-none}

module _ {ℓ} {K V : Type ℓ} ⦃k : Key K⦄ where
  del_all-cons_ne :
      (e : K × V) (d : Dict K V) (xs : List K)
      → ¬ Member e.0 xs
      → del_all (e ∷ d) xs ≡ e ∷ del_all d xs
  unfolding del_all del
  del_all-cons_ne e d [] n = refl
  del_all-cons_ne e d (x ∷ xs) n = elim (k.dec e.0 x) [
    | yes p ↦ absurd (n (inl p))
    | no p ↦ rw (if_neg _ p) (del_all-cons_ne e (del d x) xs (λ m. n (inr m)))
  ]

  filter-keys :
      (p : K × V → Bool) (d : Dict K V) (x : K) → Member x (keys (filter p d)) → Member x (keys d)
  filter-keys p d x m =
      let (e, here, q) = Member-map_inv (λ (e : K × V). e.0) x (filter p d) m in
      rw q (Member-map (λ (e : K × V). e.0) e d (Member-filter e p d here).0)

  pub filter-Distinct :
      (p : K × V → Bool) (d : Dict K V) → Distinct (keys d) → Distinct (keys (filter p d))
  filter-Distinct p [] u = tt
  filter-Distinct p (e ∷ d) u = elim (Bool-cases (p e)) [
    | inl h ↦ rw h ((λ m. u.0 (filter-keys p d e.0 m)), filter-Distinct p d u.1)
    | inr h ↦ rw h (filter-Distinct p d u.1)
  ]

  del-cons_self : (e : K × V) (d : Dict K V) → del (e ∷ d) e.0 ≡ d
  unfolding del
  del-cons_self e d = if_pos (k.dec e.0 e.0) refl _ _

  pub del_all-filter :
      (p : K × V → Bool) (d : Dict K V)
      → Distinct (keys d)
      → del_all d (keys (filter p d)) ≡ filter (λ e. not (p e)) d
  unfolding del_all
  del_all-filter p [] u = refl
  del_all-filter p (e ∷ d) u = elim (Bool-cases (p e)) [
    | inl h ↦
        rw h (ap (λ t. del_all t (keys (filter p d))) (del-cons_self e d) ∙ del_all-filter p d u.1)
    | inr h ↦ rw h (
        del_all-cons_ne e d (keys (filter p d)) (λ m. u.0 (filter-keys p d e.0 m))
        ∙ ap (◌∷◌ e) (del_all-filter p d u.1))
  ]

  pub filter-get :
      (p : K × V → Bool) (d : Dict K V)
      → Distinct (keys d)
      → All (λ e. get d e.0 ≡ some e.1) (filter p d)
  filter-get p d u = All-intro _ _ λ e m. Member-get d e.0 e.1 u (Member-filter e p d m).0

  -- what a lookup in a filtered dict keeps of the value found
  abbrev pub kept : (K × V → Bool) → K → Option V → Option V
  kept p x none = none
  kept p x (some v) = if p (x, v) then some v else none

  pub get-filter :
      (p : K × V → Bool) (d : Dict K V) (x : K)
      → Distinct (keys d)
      → get (filter p d) x ≡ kept p x (get d x)
  unfolding get
  get-filter p [] x u = refl
  get-filter p ((y, w) ∷ d) x u = elim (k.dec y x) [
    | yes q ↦ rw (if_pos _ q) (elim (Bool-cases (p (y, w))) [
      | inl h ↦ rw h (rw (if_pos _ q) (rw (rw q at h)))
      | inr h ↦ rw h (
          get-filter p d x u.1
          ∙ ap (kept p x) (not-Member-none d x (rw q at u.0))
          ∙ sym (rw (rw q at h)))
    ])
    | no q ↦ rw (if_neg _ q) (elim (Bool-cases (p (y, w))) [
      | inl h ↦ rw h (rw (if_neg _ q) (get-filter p d x u.1))
      | inr h ↦ rw h (get-filter p d x u.1)
    ])
  ]
