-- ===== src/Dict/Build.antt =====
-- Dicts built from lists of entries.
use dmr_decrep_shahar.Prelude.{
  [], ◌∷◌, ◌++◌, if_neg, Key, ◌≡◌, refl, sym, ap, subst, ◌∙◌, inl, inr, Member, Distinct,
  append_assoc, append-nil, Member-map, Member-append_right,
}
use dmr_decrep_shahar.Dict.{Dict, keys, put, put_all, from_entries}

module _ {ℓ} {K V : Type ℓ} ⦃k : Key K⦄ where
  pub put-append :
      (d : Dict K V) (x : K) (v : V) → ¬ Member x (keys d) → put d x v ≡ d ++ (x, v) ∷ []
  unfolding put
  put-append [] x v n = refl
  put-append ((y, w) ∷ d) x v n = elim (k.dec y x) [
    | yes p ↦ absurd (n (inl (sym p)))
    | no p ↦ rw (if_neg _ p) (ap (◌∷◌ (y, w)) (put-append d x v (λ m. n (inr m))))
  ]

  Distinct-middle :
      (d : Dict K V) (e : K × V) (es : Dict K V)
      → Distinct (keys (d ++ e ∷ es))
      → ¬ Member e.0 (keys d)
  Distinct-middle [] e es u m = elim m [ ]
  Distinct-middle (f ∷ d) e es u (inl p) = u.0 (
      subst (λ x. Member x (keys (d ++ e ∷ es))) p
        (Member-map (λ (e : K × V). e.0) e (d ++ e ∷ es)
          (Member-append_right e d (e ∷ es) (inl refl))))
  Distinct-middle (f ∷ d) e es u (inr m) = Distinct-middle d e es u.1 m

  put_all-append : (d es : Dict K V) → Distinct (keys (d ++ es)) → put_all d es ≡ d ++ es
  unfolding put_all
  put_all-append d [] u = sym (append-nil d)
  put_all-append d (e ∷ es) u =
      let here = put-append d e.0 e.1 (Distinct-middle d e es u) in
      let shift = append_assoc d (e ∷ []) es in
      ap (λ t. put_all t es) here
      ∙ put_all-append (d ++ e ∷ []) es (subst (λ t. Distinct (keys t)) (sym shift) u)
      ∙ shift

  pub from_entries-Distinct : (es : Dict K V) → Distinct (keys es) → from_entries es ≡ es
  from_entries-Distinct es u = put_all-append [] es u
