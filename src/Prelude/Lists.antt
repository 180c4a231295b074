-- ===== src/Prelude/Lists.antt =====
-- Lists measured by native numbers, and predicates on lists by recursion, which the tactics read.
use Prim.Native.Nat.{ℕ, zero, suc, ◌+◌, ◌-◌, ◌≤◌, min}
use mathlib.Core.Path.{◌≡◌, refl, ap}
use mathlib.Core.Logic.{◌⊎◌, inl, inr}
use mathlib.Core.List.{List, [], ◌∷◌, ◌++◌, map}
use mathlib.Core.Bool.{Bool, true}
use native.Mathlib.Omega.{arith}
use dmr_decrep_shahar.Prelude.Tests.{if◌then◌else◌}

-- the empty type at a level
pub data Nowhere {ℓ} : Type ℓ where

module _ {ℓ} {A : Type ℓ} where
  abbrev pub length : List A → ℕ
  length [] = 0
  length (x ∷ xs) = suc (length xs)

  abbrev pub take : ℕ → List A → List A
  take zero xs = []
  take (suc n) [] = []
  take (suc n) (x ∷ xs) = x ∷ take n xs

  abbrev pub drop : ℕ → List A → List A
  drop zero xs = xs
  drop (suc n) [] = []
  drop (suc n) (x ∷ xs) = drop n xs

  -- `[x for x in xs if p(x)]`
  abbrev pub filter : (A → Bool) → List A → List A
  filter p [] = []
  filter p (x ∷ xs) = if p x then x ∷ filter p xs else filter p xs

  abbrev pub Member : A → List A → Type ℓ
  Member x [] = Nowhere
  Member x (y ∷ ys) = (x ≡ y) ⊎ Member x ys

  abbrev pub Distinct : List A → Type ℓ
  Distinct [] = Unit
  Distinct (x ∷ xs) = (¬ Member x xs) × Distinct xs

  abbrev pub All {κ} : (A → Type κ) → List A → Type κ
  All P [] = Unit
  All P (x ∷ xs) = P x × All P xs

  pub length-append : (xs ys : List A) → length (xs ++ ys) ≡ length xs + length ys
  length-append [] ys = omega arith
  length-append (x ∷ xs) ys = omega (arith, length-append xs ys)

  pub length-take : (n : ℕ) (xs : List A) → length (take n xs) ≡ min n (length xs)
  length-take zero xs = omega arith
  length-take (suc n) [] = omega arith
  length-take (suc n) (x ∷ xs) = omega (arith, length-take n xs)

  pub length-drop : (n : ℕ) (xs : List A) → length (drop n xs) ≡ length xs - n
  length-drop zero xs = omega arith
  length-drop (suc n) [] = omega arith
  length-drop (suc n) (x ∷ xs) = omega (arith, length-drop n xs)

  pub take-append-drop : (n : ℕ) (xs : List A) → take n xs ++ drop n xs ≡ xs
  take-append-drop zero xs = refl
  take-append-drop (suc n) [] = refl
  take-append-drop (suc n) (x ∷ xs) = ap (◌∷◌ x) (take-append-drop n xs)

  pub Member-append : (z : A) (xs ys : List A) → Member z (xs ++ ys) → Member z xs ⊎ Member z ys
  Member-append z [] ys m = inr m
  Member-append z (x ∷ xs) ys (inl e) = inl (inl e)
  Member-append z (x ∷ xs) ys (inr m) = ground (arith, Member-append z xs ys m)

  pub Member-append_left : (z : A) (xs ys : List A) → Member z xs → Member z (xs ++ ys)
  Member-append_left z (x ∷ xs) ys (inl e) = inl e
  Member-append_left z (x ∷ xs) ys (inr m) = inr (Member-append_left z xs ys m)
  Member-append_left z [] ys m = elim m [ ]

  pub Member-append_right : (z : A) (xs ys : List A) → Member z ys → Member z (xs ++ ys)
  Member-append_right z [] ys m = m
  Member-append_right z (x ∷ xs) ys m = inr (Member-append_right z xs ys m)

  pub Member-take : (z : A) (n : ℕ) (xs : List A) → Member z (take n xs) → Member z xs
  Member-take z (suc n) (x ∷ xs) (inl e) = inl e
  Member-take z (suc n) (x ∷ xs) (inr m) = inr (Member-take z n xs m)
  Member-take z zero xs m = elim m [ ]
  Member-take z (suc n) [] m = elim m [ ]

  pub Member-drop : (z : A) (n : ℕ) (xs : List A) → Member z (drop n xs) → Member z xs
  Member-drop z zero xs m = m
  Member-drop z (suc n) [] m = elim m [ ]
  Member-drop z (suc n) (x ∷ xs) m = inr (Member-drop z n xs m)

  -- an element of a list is in the first `n` or in the rest
  pub Member-split :
      (z : A) (n : ℕ) (xs : List A) → Member z xs → Member z (take n xs) ⊎ Member z (drop n xs)
  Member-split z zero xs m = inr m
  Member-split z (suc n) (x ∷ xs) (inl e) = inl (inl e)
  Member-split z (suc n) (x ∷ xs) (inr m) = ground (arith, Member-split z n xs m)
  Member-split z (suc n) [] m = elim m [ ]

  pub Member-filter :
      (z : A) (p : A → Bool) (xs : List A) → Member z (filter p xs) → Member z xs × (p z ≡ true)
  Member-filter z p [] m = elim m [ ]
  Member-filter z p (x ∷ xs) m = ground (arith, Member-filter z p xs)

  pub filter-Member :
      (z : A) (p : A → Bool) (xs : List A) → Member z xs → p z ≡ true → Member z (filter p xs)
  filter-Member z p [] m h = elim m [ ]
  filter-Member z p (x ∷ xs) m h = ground (arith, filter-Member z p xs)

  pub length-filter-le : (p : A → Bool) (xs : List A) → length (filter p xs) ≤ length xs
  length-filter-le p [] = omega arith
  length-filter-le p (x ∷ xs) = ground (arith, length-filter-le p xs)

  pub All-Member {κ} : (P : A → Type κ) (xs : List A) (z : A) → All P xs → Member z xs → P z
  All-Member P (x ∷ xs) z h (inl e) = rw e h.0
  All-Member P (x ∷ xs) z h (inr m) = All-Member P xs z h.1 m
  All-Member P [] z h m = elim m [ ]

  pub All-intro {κ} : (P : A → Type κ) (xs : List A) → ((z : A) → Member z xs → P z) → All P xs
  All-intro P [] h = tt
  All-intro P (x ∷ xs) h = (h x (inl refl), All-intro P xs (λ z m. h z (inr m)))

  pub All-append {κ} : (P : A → Type κ) (xs ys : List A) → All P xs → All P ys → All P (xs ++ ys)
  All-append P [] ys hx hy = hy
  All-append P (x ∷ xs) ys hx hy = (hx.0, All-append P xs ys hx.1 hy)

  pub All-drop {κ} : (P : A → Type κ) (n : ℕ) (xs : List A) → All P xs → All P (drop n xs)
  All-drop P zero xs a = a
  All-drop P (suc n) [] a = tt
  All-drop P (suc n) (x ∷ xs) a = All-drop P n xs a.1

module _ {ℓ κ} {A : Type ℓ} {B : Type κ} (f : A → B) where
  pub length-map : (xs : List A) → length (map f xs) ≡ length xs
  length-map [] = refl
  length-map (x ∷ xs) = ap suc (length-map xs)

  pub Member-map : (z : A) (xs : List A) → Member z xs → Member (f z) (map f xs)
  Member-map z (x ∷ xs) (inl e) = inl (ap f e)
  Member-map z (x ∷ xs) (inr m) = inr (Member-map z xs m)
  Member-map z [] m = elim m [ ]

  pub Member-map_inv :
      (b : B) (xs : List A) → Member b (map f xs) → (a : A) × Member a xs × (b ≡ f a)
  Member-map_inv b (x ∷ xs) (inl e) = (x, inl refl, e)
  Member-map_inv b (x ∷ xs) (inr m) = let (a, h, e) = Member-map_inv b xs m in (a, inr h, e)
  Member-map_inv b [] m = elim m [ ]

  pub take-map : (n : ℕ) (xs : List A) → take n (map f xs) ≡ map f (take n xs)
  take-map zero xs = refl
  take-map (suc n) [] = refl
  take-map (suc n) (x ∷ xs) = ap (◌∷◌ (f x)) (take-map n xs)

  -- where a function is one to one on a list by its values being distinct
  pub Distinct-map_inj :
      (xs : List A) (a b : A) → Distinct (map f xs) → Member a xs → Member b xs → f a ≡ f b → a ≡ b
  Distinct-map_inj (x ∷ xs) a b d (inl p) (inl q) e = cc
  Distinct-map_inj (x ∷ xs) a b d (inl p) (inr n) e =
      absurd (d.0 (rw (← ap f p) (rw e (Member-map b xs n))))
  Distinct-map_inj (x ∷ xs) a b d (inr m) (inl q) e =
      absurd (d.0 (rw (← ap f q) (rw (← e) (Member-map a xs m))))
  Distinct-map_inj (x ∷ xs) a b d (inr m) (inr n) e = Distinct-map_inj xs a b d.1 m n e
  Distinct-map_inj [] a b d m n e = elim m [ ]

pub Distinct-take {ℓ} : {A : Type ℓ} (n : ℕ) (xs : List A) → Distinct xs → Distinct (take n xs)
Distinct-take zero xs d = tt
Distinct-take (suc n) [] d = tt
Distinct-take (suc n) (x ∷ xs) d = (λ m. d.0 (Member-take x n xs m), Distinct-take n xs d.1)
