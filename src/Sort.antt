-- ===== src/Sort.antt =====
-- Python's `sorted`, a stable sort, by a test `le x y` for "x may stand before y": insertion from the
-- right keeps equal elements in their order. The functions specify the library routine; nothing in
-- the program depends on how it is carried out.
use dmr_decrep_shahar.Prelude.{
  ℕ, zero, suc, ◌+◌, List, [], ◌∷◌, ◌++◌, Bool, true, false, map, ◌≡◌, refl, sym, ◌⊎◌, inl, inr,
  arith, Member, Distinct, All, All-append, All-Member, length, if◌then◌else◌, Bool-cases, take,
  drop, Member-drop,
}

-- every element stands before each later one, by `R`
abbrev pub Ordered {ℓ κ} : {A : Type ℓ} → (A → A → Type κ) → List A → Type κ
Ordered R [] = Unit
Ordered R (x ∷ xs) = All (R x) xs × Ordered R xs

module _ {ℓ} {A : Type ℓ} (le : A → A → Bool) where
  unfoldable pub insert : A → List A → List A
  insert x [] = x ∷ []
  insert x (y ∷ ys) = if le x y then x ∷ y ∷ ys else y ∷ insert x ys

  unfoldable pub sorted : List A → List A
  unfolding insert
  sorted [] = []
  sorted (x ∷ xs) = insert x (sorted xs)

  length-insert : (x : A) (xs : List A) → length (insert x xs) ≡ length xs + 1
  unfolding insert
  length-insert x [] = refl
  length-insert x (y ∷ ys) = ground (arith, length-insert x ys)

  pub length-sorted : (xs : List A) → length (sorted xs) ≡ length xs
  unfolding sorted
  length-sorted [] = refl
  length-sorted (x ∷ xs) = omega (arith, length-insert x (sorted xs), length-sorted xs)

  insert-Member : (x z : A) (xs : List A) → (z ≡ x) ⊎ Member z xs → Member z (insert x xs)
  unfolding insert
  insert-Member x z [] m = m
  insert-Member x z (y ∷ ys) m = ground (arith, insert-Member x z ys)

  Member-insert : (x z : A) (xs : List A) → Member z (insert x xs) → (z ≡ x) ⊎ Member z xs
  unfolding insert
  Member-insert x z [] m = m
  Member-insert x z (y ∷ ys) m = ground (arith, Member-insert x z ys)

  pub sorted-Member : (z : A) (xs : List A) → Member z xs → Member z (sorted xs)
  unfolding sorted
  sorted-Member z [] m = m
  sorted-Member z (x ∷ xs) (inl e) = insert-Member x z (sorted xs) (inl e)
  sorted-Member z (x ∷ xs) (inr m) = insert-Member x z (sorted xs) (inr (sorted-Member z xs m))

  pub Member-sorted : (z : A) (xs : List A) → Member z (sorted xs) → Member z xs
  unfolding sorted
  Member-sorted z [] m = m
  Member-sorted z (x ∷ xs) m = ground (arith, Member-insert x z (sorted xs), Member-sorted z xs)

  module _ {κ} {B : Type κ} (f : A → B) where
    Member-map-insert :
        (x : A) (b : B) (xs : List A)
        → Member b (map f (insert x xs))
        → (b ≡ f x) ⊎ Member b (map f xs)
    unfolding insert
    Member-map-insert x b [] m = m
    Member-map-insert x b (y ∷ ys) m = ground (arith, Member-map-insert x b ys)

    insert-Distinct :
        (x : A) (xs : List A)
        → ¬ Member (f x) (map f xs)
        → Distinct (map f xs)
        → Distinct (map f (insert x xs))
    unfolding insert
    insert-Distinct x [] n u = (n, tt)
    insert-Distinct x (y ∷ ys) n u = elim (Bool-cases (le x y)) [
      | inl before ↦ rw before (n, u)
      | inr after ↦ rw after (
        (λ m. elim (Member-map-insert x (f y) ys m) [ inl e ↦ n (inl (sym e)) | inr m' ↦ u.0 m' ]),
        insert-Distinct x ys (λ m. n (inr m)) u.1,
      )
    ]

    Member-map-sorted : (b : B) (xs : List A) → Member b (map f (sorted xs)) → Member b (map f xs)
    unfolding sorted
    Member-map-sorted b [] m = m
    Member-map-sorted b (x ∷ xs) m =
        ground (arith, Member-map-insert x b (sorted xs), Member-map-sorted b xs)

    -- sorting keeps what `f` shows of the elements distinct
    pub sorted-Distinct : (xs : List A) → Distinct (map f xs) → Distinct (map f (sorted xs))
    unfolding sorted
    sorted-Distinct [] u = tt
    sorted-Distinct (x ∷ xs) u =
        insert-Distinct x (sorted xs) (λ m. u.0 (Member-map-sorted (f x) xs m))
          (sorted-Distinct xs u.1)

  module _ {κ} (R : A → A → Type κ) (before : (x y : A) → le x y ≡ true → R x y)
      (after : (x y : A) → le x y ≡ false → R y x)
      (trans : (x y z : A) → R x y → R y z → R x z) where
    All-trans : (x y : A) (ys : List A) → R x y → All (R y) ys → All (R x) ys
    All-trans x y [] r h = tt
    All-trans x y (z ∷ zs) r h = (trans x y z r h.0, All-trans x y zs r h.1)

    All-insert : (w x : A) (ys : List A) → R w x → All (R w) ys → All (R w) (insert x ys)
    unfolding insert
    All-insert w x [] r h = (r, tt)
    All-insert w x (y ∷ ys) r h = ground (arith, All-insert w x ys r)

    insert-Ordered : (x : A) (ys : List A) → Ordered R ys → Ordered R (insert x ys)
    unfolding insert
    insert-Ordered x [] o = (tt, tt)
    insert-Ordered x (y ∷ ys) o = elim (Bool-cases (le x y)) [
      | inl e ↦ rw e ((before x y e, All-trans x y ys (before x y e) o.0), o)
      | inr e ↦ rw e (All-insert y x ys (after x y e) o.0, insert-Ordered x ys o.1)
    ]

    pub sorted-Ordered : (xs : List A) → Ordered R (sorted xs)
    unfolding sorted
    sorted-Ordered [] = tt
    sorted-Ordered (x ∷ xs) = insert-Ordered x (sorted xs) (sorted-Ordered xs)

-- in an ordered list the first `n` elements stand before all the others
pub Ordered-take-drop {ℓ κ} :
    {A : Type ℓ} (R : A → A → Type κ) (n : ℕ) (xs : List A) (a b : A)
    → Ordered R xs
    → Member a (take n xs)
    → Member b (drop n xs)
    → R a b
Ordered-take-drop R (suc n) (x ∷ xs) a b o (inl e) m =
    rw e (All-Member (R x) xs b o.0 (Member-drop b n xs m))
Ordered-take-drop R (suc n) (x ∷ xs) a b o (inr l) m = Ordered-take-drop R n xs a b o.1 l m
Ordered-take-drop R zero xs a b o l m = elim l [ ]
Ordered-take-drop R (suc n) [] a b o l m = elim l [ ]

pub Ordered-drop {ℓ κ} :
    {A : Type ℓ} (R : A → A → Type κ) (n : ℕ) (xs : List A) → Ordered R xs → Ordered R (drop n xs)
Ordered-drop R zero xs o = o
Ordered-drop R (suc n) [] o = tt
Ordered-drop R (suc n) (x ∷ xs) o = Ordered-drop R n xs o.1

pub Ordered-append {ℓ κ} :
    {A : Type ℓ} (R : A → A → Type κ) (xs : List A) (y : A)
    → Ordered R xs
    → All (λ x. R x y) xs
    → Ordered R (xs ++ y ∷ [])
Ordered-append R [] y o a = (tt, tt)
Ordered-append R (x ∷ xs) y o a =
    (All-append (R x) xs (y ∷ []) o.0 (a.0, tt), Ordered-append R xs y o.1 a.1)
