-- ===== src/Dict/Entries.antt =====
-- Properties of every entry of a dict, under each operation.
use dmr_decrep_shahar.Prelude.{List, [], ◌∷◌, some, if_pos, if_neg, Key, ◌≡◌, arith, All}
use dmr_decrep_shahar.Dict.{Dict, get, put, del, modify, del_all}

module _ {ℓ κ} {K V : Type ℓ} ⦃k : Key K⦄ (P : K × V → Type κ) where
  pub put-All : (d : Dict K V) (x : K) (v : V) → P (x, v) → All P d → All P (put d x v)
  unfolding put
  put-All [] x v h a = (h, tt)
  put-All ((y, w) ∷ d) x v h a = elim (k.dec y x) [
    | yes p ↦ rw (if_pos _ p) ((rw p h), a.1)
    | no p ↦ rw (if_neg _ p) (a.0, put-All d x v h a.1)
  ]

  pub modify-All :
      (d : Dict K V) (x : K) (f : V → V)
      → ((v : V) → P (x, v) → P (x, f v))
      → All P d
      → All P (modify d x f)
  unfolding modify
  modify-All [] x f h a = tt
  modify-All ((y, w) ∷ d) x f h a = elim (k.dec y x) [
    | yes p ↦ rw (if_pos _ p) ((rw p (h w (rw p at a.0))), a.1)
    | no p ↦ rw (if_neg _ p) (a.0, modify-All d x f h a.1)
  ]

  pub del-All : (d : Dict K V) (x : K) → All P d → All P (del d x)
  unfolding del
  del-All [] x a = tt
  del-All ((y, w) ∷ d) x a = elim (k.dec y x) [
    | yes p ↦ rw (if_pos _ p) a.1
    | no p ↦ rw (if_neg _ p) (a.0, del-All d x a.1)
  ]

  pub del_all-All : (d : Dict K V) (xs : List K) → All P d → All P (del_all d xs)
  unfolding del_all
  del_all-All d [] a = a
  del_all-All d (x ∷ xs) a = del_all-All (del d x) xs (del-All d x a)

  pub get-All : (d : Dict K V) (x : K) (v : V) → get d x ≡ some v → All P d → P (x, v)
  unfolding get
  get-All [] x v e a = cc
  get-All ((y, w) ∷ d) x v e a = elim (k.dec y x) [
    | yes p ↦ let same : w ≡ v = ground arith in rw (← p) (rw (← same) a.0)
    | no p ↦ get-All d x v (ground arith) a.1
  ]
