-- ===== src/Dict/Size.antt =====
-- The number of entries of a dict after each operation, and the deletion of many keys.
use dmr_decrep_shahar.Prelude.{
  ◌+◌, List, [], ◌∷◌, none, some, if_pos, if_neg, Key, ◌≡◌, ◌≢◌, refl, sym, ap, ◌∙◌, inl, inr,
  arith, Member, Distinct, All, length,
}
use dmr_decrep_shahar.Dict.{Dict, keys, get, put, del, modify, del_all}
use dmr_decrep_shahar.Dict.Laws.{del-Distinct, Member-del, del_not-Member}

module _ {ℓ} {K V : Type ℓ} ⦃k : Key K⦄ where
  pub length-put-none :
      (d : Dict K V) (x : K) (v : V) → get d x ≡ none → length (put d x v) ≡ length d + 1
  unfolding get put
  length-put-none [] x v h = refl
  length-put-none ((y, w) ∷ d) x v h = ground (arith, length-put-none d x v)

  pub length-put-some :
      (d : Dict K V) (x : K) (v : V) {w : V} → get d x ≡ some w → length (put d x v) ≡ length d
  unfolding get put
  length-put-some [] x v h = cc
  length-put-some ((y, u) ∷ d) x v {w} h = ground (arith, length-put-some d x v {w = w})

  pub length-modify : (d : Dict K V) (x : K) (f : V → V) → length (modify d x f) ≡ length d
  unfolding modify
  length-modify [] x f = refl
  length-modify ((y, u) ∷ d) x f = ground (arith, length-modify d x f)

  pub length-del : (d : Dict K V) (x : K) → Member x (keys d) → length (del d x) + 1 ≡ length d
  unfolding del
  length-del [] x m = elim m [ ]
  length-del ((y, w) ∷ d) x m = ground (arith, length-del d x)

  Member-del_ne : (d : Dict K V) (x z : K) → z ≢ x → Member z (keys d) → Member z (keys (del d x))
  unfolding del
  Member-del_ne [] x z h m = m
  Member-del_ne ((y, w) ∷ d) x z h m = ground (arith, Member-del_ne d x z h)

  -- with distinct keys that are all present, each `del` removes one entry and none fails
  pub length-del_all :
      (d : Dict K V) (xs : List K)
      → Distinct xs
      → All (λ x. Member x (keys d)) xs
      → length (del_all d xs) + length xs ≡ length d
  unfolding del_all
  length-del_all d [] u h = omega arith
  length-del_all d (x ∷ xs) u h =
      omega (arith, length-del d x h.0, length-del_all (del d x) xs u.1 (still xs u.0 h.1))
    where
      still :
          (ys : List K)
          → ¬ Member x ys
          → All (λ y. Member y (keys d)) ys
          → All (λ y. Member y (keys (del d x))) ys
      still [] n h = tt
      still (y ∷ ys) n h =
          (Member-del_ne d x y (λ e. n (inl (sym e))) h.0, still ys (λ m. n (inr m)) h.1)

  pub Member-del_entry : (d : Dict K V) (x : K) (e : K × V) → Member e (del d x) → Member e d
  unfolding del
  Member-del_entry [] x e m = m
  Member-del_entry ((y, w) ∷ d) x e m = ground (arith, Member-del_entry d x e)

  pub Member-del_all :
      (d : Dict K V) (xs : List K) (e : K × V) → Member e (del_all d xs) → Member e d
  unfolding del_all
  Member-del_all d [] e m = m
  Member-del_all d (x ∷ xs) e m = Member-del_entry d x e (Member-del_all (del d x) xs e m)

  pub Member-del_all-keys :
      (d : Dict K V) (xs : List K) (z : K) → Member z (keys (del_all d xs)) → Member z (keys d)
  unfolding del_all
  Member-del_all-keys d [] z m = m
  Member-del_all-keys d (x ∷ xs) z m = Member-del d x z (Member-del_all-keys (del d x) xs z m)

  -- a deleted key is gone
  pub del_all_not-Member :
      (d : Dict K V) (xs : List K) (z : K)
      → Distinct (keys d)
      → Member z xs
      → ¬ Member z (keys (del_all d xs))
  unfolding del_all
  del_all_not-Member d (x ∷ xs) z u (inl e) m =
      del_not-Member d x u (rw e at (Member-del_all-keys (del d x) xs z m))
  del_all_not-Member d (x ∷ xs) z u (inr n) m =
      del_all_not-Member (del d x) xs z (del-Distinct d x u) n m
  del_all_not-Member d [] z u n m = elim n [ ]

  Member-of_del_ne : (d : Dict K V) (x : K) (e : K × V) → e.0 ≢ x → Member e d → Member e (del d x)
  unfolding del
  Member-of_del_ne [] x e h m = m
  Member-of_del_ne ((y, w) ∷ d) x e h (inl p) = elim (k.dec y x) [
    | yes q ↦ absurd (h (ap (λ (t : K × V). t.0) p ∙ q))
    | no q ↦ rw (if_neg _ q) (inl p)
  ]
  Member-of_del_ne ((y, w) ∷ d) x e h (inr m) = elim (k.dec y x) [
    | yes q ↦ rw (if_pos _ q) m
    | no q ↦ rw (if_neg _ q) (inr (Member-of_del_ne d x e h m))
  ]

  -- an entry whose key is not deleted stays
  pub Member-of_del_all :
      (d : Dict K V) (xs : List K) (e : K × V)
      → ¬ Member e.0 xs
      → Member e d
      → Member e (del_all d xs)
  unfolding del_all
  Member-of_del_all d [] e n m = m
  Member-of_del_all d (x ∷ xs) e n m =
      Member-of_del_all (del d x) xs e (λ l. n (inr l)) (Member-of_del_ne d x e (λ p. n (inl p)) m)
