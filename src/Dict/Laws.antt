-- ===== src/Dict/Laws.antt =====
-- Lookups after each operation on a dict, and the distinctness of its keys.
use dmr_decrep_shahar.Prelude.{
  List, [], ◌∷◌, none, some, ite, if_pos, if_neg, Key, ◌≡◌, ◌∙◌, ◌≢◌, refl, sym, ◌⊎◌, inl, inr,
  arith, Member, Distinct,
}
use dmr_decrep_shahar.Dict.{Dict, keys, get, put, del, modify, del_all}

module _ {ℓ} {K V : Type ℓ} ⦃k : Key K⦄ where
  pub get-put :
      (d : Dict K V) (x z : K) (v : V) → get (put d x v) z ≡ ite (k.dec x z) (some v) (get d z)
  unfolding get put
  get-put [] x z v = refl
  get-put ((y, w) ∷ d) x z v = ground (arith, get-put d x z v)

  pub get-put_self : (d : Dict K V) (x : K) (v : V) → get (put d x v) x ≡ some v
  get-put_self d x v = get-put d x x v ∙ if_pos (k.dec x x) refl (some v) (get d x)

  pub get-put_ne : (d : Dict K V) (x z : K) (v : V) → x ≢ z → get (put d x v) z ≡ get d z
  get-put_ne d x z v n = get-put d x z v ∙ if_neg (k.dec x z) n (some v) (get d z)

  pub get-modify :
      (d : Dict K V) (x z : K) (f : V → V) (v : V)
      → get d z ≡ some v
      → get (modify d x f) z ≡ ite (k.dec x z) (some (f v)) (some v)
  unfolding get modify
  get-modify [] x z f v h = cc
  get-modify ((y, w) ∷ d) x z f v h = ground (arith, get-modify d x z f v)

  pub get-modify-none :
      (d : Dict K V) (x z : K) (f : V → V) → get d z ≡ none → get (modify d x f) z ≡ none
  unfolding get modify
  get-modify-none [] x z f h = refl
  get-modify-none ((y, w) ∷ d) x z f h = ground (arith, get-modify-none d x z f)

  pub get-del_ne : (d : Dict K V) (x z : K) → x ≢ z → get (del d x) z ≡ get d z
  unfolding get del
  get-del_ne [] x z h = refl
  get-del_ne ((y, w) ∷ d) x z h = ground (arith, get-del_ne d x z h)

  pub get-Member : (d : Dict K V) (x : K) {v : V} → get d x ≡ some v → Member x (keys d)
  unfolding get
  get-Member [] x h = cc
  get-Member ((y, w) ∷ d) x {v} h = ground (arith, get-Member d x {v = v})

  pub get-Member_entry : (d : Dict K V) (x : K) (v : V) → get d x ≡ some v → Member (x, v) d
  unfolding get
  get-Member_entry [] x v h = cc
  get-Member_entry ((y, w) ∷ d) x v h = ground (arith, get-Member_entry d x v)

  pub none-not-Member : (d : Dict K V) (x : K) → get d x ≡ none → ¬ Member x (keys d)
  unfolding get
  none-not-Member [] x h m = elim m [ ]
  none-not-Member ((y, w) ∷ d) x h m = ground (arith, none-not-Member d x)

  pub not-Member-none : (d : Dict K V) (x : K) → ¬ Member x (keys d) → get d x ≡ none
  unfolding get
  not-Member-none [] x h = refl
  not-Member-none ((y, w) ∷ d) x h = elim (k.dec y x) [
    | yes p ↦ absurd (h (inl (sym p)))
    | no p ↦ rw (if_neg _ p) (not-Member-none d x (λ m. h (inr m)))
  ]

  pub Member-get :
      (d : Dict K V) (x : K) (v : V) → Distinct (keys d) → Member (x, v) d → get d x ≡ some v
  unfolding get
  Member-get [] x v u m = elim m [ ]
  Member-get ((y, w) ∷ d) x v u (inl e) = ground arith
  Member-get ((y, w) ∷ d) x v u (inr m) = elim (k.dec y x) [
    | yes p ↦ absurd (u.0 (rw p (Member-key d x v m)))
    | no p ↦ rw (if_neg _ p) (Member-get d x v u.1 m)
  ]
    where
      Member-key : (d : Dict K V) (x : K) (v : V) → Member (x, v) d → Member x (keys d)
      Member-key ((y, w) ∷ d) x v (inl e) = inl (λ i. (e i).0)
      Member-key ((y, w) ∷ d) x v (inr m) = inr (Member-key d x v m)
      Member-key [] x v m = elim m [ ]

  pub keys-put-some :
      (d : Dict K V) (x : K) (v : V) {w : V} → get d x ≡ some w → keys (put d x v) ≡ keys d
  unfolding get put
  keys-put-some [] x v h = cc
  keys-put-some ((y, u) ∷ d) x v {w} h = ground (arith, keys-put-some d x v {w = w})

  pub keys-modify : (d : Dict K V) (x : K) (f : V → V) → keys (modify d x f) ≡ keys d
  unfolding modify
  keys-modify [] x f = refl
  keys-modify ((y, u) ∷ d) x f = ground (arith, keys-modify d x f)

  pub Member-put :
      (d : Dict K V) (x z : K) (v : V) → Member z (keys (put d x v)) → (z ≡ x) ⊎ Member z (keys d)
  unfolding put
  Member-put [] x z v m = m
  Member-put ((y, w) ∷ d) x z v m = ground (arith, Member-put d x z v)

  pub Member-del : (d : Dict K V) (x z : K) → Member z (keys (del d x)) → Member z (keys d)
  unfolding del
  Member-del [] x z m = m
  Member-del ((y, w) ∷ d) x z m = ground (arith, Member-del d x z)

  pub put-Distinct :
      (d : Dict K V) (x : K) (v : V) → Distinct (keys d) → Distinct (keys (put d x v))
  unfolding put
  put-Distinct [] x v u = ((λ m. elim m [ ]), tt)
  put-Distinct ((y, w) ∷ d) x v u = elim (k.dec y x) [
    | yes p ↦ rw (if_pos _ p) u
    | no p ↦
        rw (if_neg _ p) ((λ m. ground (arith, Member-put d x y v m, u.0)), put-Distinct d x v u.1)
  ]

  pub del-Distinct : (d : Dict K V) (x : K) → Distinct (keys d) → Distinct (keys (del d x))
  unfolding del
  del-Distinct [] x u = u
  del-Distinct ((y, w) ∷ d) x u = elim (k.dec y x) [
    | yes p ↦ rw (if_pos _ p) u.1
    | no p ↦ rw (if_neg _ p) ((λ m. u.0 (Member-del d x y m)), del-Distinct d x u.1)
  ]

  pub modify-Distinct :
      (d : Dict K V) (x : K) (f : V → V) → Distinct (keys d) → Distinct (keys (modify d x f))
  modify-Distinct d x f u = rw (keys-modify d x f) u

  pub del_not-Member : (d : Dict K V) (x : K) → Distinct (keys d) → ¬ Member x (keys (del d x))
  unfolding del
  del_not-Member [] x u m = elim m [ ]
  del_not-Member ((y, w) ∷ d) x u m = ground (arith, del_not-Member d x u.1)

  pub get-del_self : (d : Dict K V) (x : K) → Distinct (keys d) → get (del d x) x ≡ none
  get-del_self d x u = not-Member-none _ x (del_not-Member d x u)

  pub del_all-Distinct :
      (d : Dict K V) (xs : List K) → Distinct (keys d) → Distinct (keys (del_all d xs))
  unfolding del_all
  del_all-Distinct d [] u = u
  del_all-Distinct d (x ∷ xs) u = del_all-Distinct (del d x) xs (del-Distinct d x u)
