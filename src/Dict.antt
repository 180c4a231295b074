-- ===== src/Dict.antt =====
-- Python's `dict`, which keeps its keys in the order of insertion: an association list. The laws
-- are in the child modules.
pub mod Laws
pub mod Size
pub mod Entries
pub mod Filter
pub mod Build
use dmr_decrep_shahar.Prelude.{List, [], ◌∷◌, Option, none, some, ite, map, Key, ◌≡◌, ap, length}

abbrev pub Dict {ℓ} : Type ℓ → Type ℓ → Type ℓ
Dict K V = List (K × V)

module _ {ℓ} {K V : Type ℓ} where
  -- `d.keys()` and `d.values()`
  abbrev pub keys : Dict K V → List K
  keys = map (λ e. e.0)

  abbrev pub values : Dict K V → List V
  values = map (λ e. e.1)

module _ {ℓ} {K V : Type ℓ} ⦃k : Key K⦄ where
  -- `d.get(x)`
  unfoldable pub get : Dict K V → K → Option V
  get [] x = none
  get ((y, v) ∷ d) x = ite (k.dec y x) (some v) (get d x)

  -- `d[x] = v`: a present key keeps its place
  unfoldable pub put : Dict K V → K → V → Dict K V
  put [] x v = (x, v) ∷ []
  put ((y, w) ∷ d) x v = ite (k.dec y x) ((y, v) ∷ d) ((y, w) ∷ put d x v)

  -- `del d[x]`, `d.pop(x, None)`: nothing if the key is missing
  unfoldable pub del : Dict K V → K → Dict K V
  del [] x = []
  del ((y, w) ∷ d) x = ite (k.dec y x) d ((y, w) ∷ del d x)

  -- a change of the object that `d[x]` refers to, if there is one
  unfoldable pub modify : Dict K V → K → (V → V) → Dict K V
  modify [] x f = []
  modify ((y, w) ∷ d) x f = ite (k.dec y x) ((y, f w) ∷ d) ((y, w) ∷ modify d x f)

  -- `for x in xs: del d[x]`
  unfoldable pub del_all : Dict K V → List K → Dict K V
  del_all d [] = d
  del_all d (x ∷ xs) = del_all (del d x) xs

  -- `{x: v for x, v in entries}`, the entries put in turn
  unfoldable pub put_all : Dict K V → List (K × V) → Dict K V
  unfolding put
  put_all d [] = d
  put_all d ((x, v) ∷ entries) = put_all (put d x v) entries

  abbrev pub from_entries : List (K × V) → Dict K V
  from_entries = put_all []
