-- ===== src/Prelude/Keys.antt =====
-- Keys of dictionaries and members of sets: types with decidable equality, as an instance.
use Prim.Native.Nat.{ℕ}
use Prim.Native.String.{String}
use mathlib.Core.Path.{◌≡◌, refl}
use mathlib.Core.Bool.{Bool, true, false}
use mathlib.Core.List.{List, [], ◌∷◌}
use mathlib.Core.Logic.{ite, ◌⊎◌, inl, inr}
use native.Mathlib.Decide.{ℕ_discrete}
use native.Mathlib.Omega.{arith}
use text.Mathlib.Text.{◌==◌}
use text.Mathlib.TextEquality.{eq_iff}
use dmr_decrep_shahar.Prelude.Lists.{Member}
use dmr_decrep_shahar.Prelude.Tests.{Bool-cases}

pub record Key {ℓ} (K : Type ℓ) : Type ℓ where
  pub dec : Discrete K

String_by_test : (s t : String) (b : Bool) → (s == t) ≡ b → Dec (s ≡ t)
String_by_test s t true e = yes ((eq_iff s t).0 e)
String_by_test s t false e = no (λ p. cc (e, (eq_iff s t).1 p))

unfoldable pub String_discrete : Discrete String
unfolding String_by_test
String_discrete s t = String_by_test s t (s == t) refl

instance abbrev pub nat_key : Key ℕ
nat_key = record { dec = ℕ_discrete }

instance abbrev pub string_key : Key String
string_key = record { dec = String_discrete }

-- `x in xs`
module _ {ℓ} {K : Type ℓ} ⦃k : Key K⦄ where
  unfoldable pub contains : List K → K → Bool
  contains [] x = false
  contains (y ∷ ys) x = ite (k.dec x y) true (contains ys x)

  pub Member-contains : (xs : List K) (x : K) → contains xs x ≡ true → Member x xs
  unfolding contains
  Member-contains [] x h = cc
  Member-contains (y ∷ ys) x h = ground (arith, Member-contains ys x)

  pub contains-Member : (xs : List K) (x : K) → Member x xs → contains xs x ≡ true
  unfolding contains
  contains-Member [] x m = elim m [ ]
  contains-Member (y ∷ ys) x m = ground (arith, contains-Member ys x)

  pub contains-cases : (xs : List K) (x : K) → Member x xs ⊎ (¬ Member x xs)
  contains-cases xs x = elim (Bool-cases (contains xs x)) [
    | inl e ↦ inl (Member-contains xs x e)
    | inr e ↦ inr (λ m. cc (e, contains-Member xs x m))
  ]
