-- ===== src/Network/Private.antt =====
-- backend/network.py: the weights of the private edges against a sum over the rows.
use dmr_decrep_shahar.Prelude.{
  Bool, true, false, ◌&&◌, ◌||◌, ltb, ◌==◌, if◌then◌else◌, ◌<◌, inl, inr, Option-cases, Bool-cases,
  ℕ_discrete, nat_key, ℕ, ◌+◌, Option, none, some, List, [], ◌∷◌, ◌≡◌, ◌≢◌, refl, ap, ◌∙◌, arith,
  if_pos, if_neg, ite,
}
use dmr_decrep_shahar.Network.{
  classify, pair_key, pair_discrete, PairRow, EdgeKind, group, private, no_totals, counted,
  row_pair, add_rows,
}
use dmr_decrep_shahar.Network.Edges.{undirected, collapse}
use dmr_decrep_shahar.Network.Traffic.{part, row_traffic, traffic, weight-traffic}

unfoldable pub is_id : Option ℕ → ℕ → Bool
is_id none a = false
is_id (some x) a = x == a

-- the row is of direct traffic
unfoldable pub is_direct : PairRow → Bool
unfolding classify
is_direct row = elim (classify row.row_type row.addressing) [
  | none ↦ false
  | some group ↦ false
  | some private ↦ true
]

-- the count of a row of direct traffic from `a` to `b`, which are ids of radios and not zero
unfoldable pub from_to : ℕ → ℕ → PairRow → ℕ
unfolding is_id is_direct
from_to a b row =
    if ltb 0 a && ltb 0 b && is_id row.src a && is_id row.tgt b && is_direct row
    then row.count
    else 0

unfoldable pub all_from_to : ℕ → ℕ → List PairRow → ℕ
unfolding from_to
all_from_to a b [] = 0
all_from_to a b (row ∷ rows) = from_to a b row + all_from_to a b rows

part-yes : (p x : ℕ × ℕ) (n : ℕ) → undirected x ≡ p → part p x n ≡ n
unfolding part
part-yes p x n e = if_pos (pair_discrete (undirected x) p) e n 0

part-no : (p x : ℕ × ℕ) (n : ℕ) → undirected x ≢ p → part p x n ≡ 0
unfolding part
part-no p x n e = if_neg (pair_discrete (undirected x) p) e n 0

-- the pair (x, y) is (a, b)
pair_test :
    (a b x y n : ℕ) → ite (pair_discrete (x, y) (a, b)) n 0 ≡ (if x == a && y == b then n else 0)
unfolding pair_discrete
pair_test a b x y n = elim (ℕ_discrete x a) [
  | no h ↦ rw (if_neg (pair_discrete (x, y) (a, b)) (λ e. h (ap (λ z. z.0) e)) n 0) (grind arith)
  | yes h ↦ elim (ℕ_discrete y b) [
    | no k ↦ rw (if_neg (pair_discrete (x, y) (a, b)) (λ e. k (ap (λ z. z.1) e)) n 0) (grind arith)
    | yes k ↦ rw (if_pos (pair_discrete (x, y) (a, b)) (λ i. (h i, k i)) n 0) (grind arith)
  ]
]

part-both :
    (a b s t n : ℕ)
    → a < b
    → part (a, b) (s, t) n
      ≡ (if s == a && t == b then n else 0) + (if s == b && t == a then n else 0)
unfolding part undirected
part-both a b s t n less = elim (Bool-cases (ltb s t)) [
  | inl l ↦ rw (l, pair_test a b s t n) (grind arith)
  | inr l ↦ rw (l, pair_test a b t s n) (grind arith)
]

is_direct-of :
    (row : PairRow) (kind : Option EdgeKind) (d : Bool)
    → classify row.row_type row.addressing ≡ kind
    → (elim kind [ none ↦ false | some group ↦ false | some private ↦ true ]) ≡ d
    → is_direct row ≡ d
unfolding is_direct
is_direct-of row kind d e h = rw (e, is_direct) h

from_to-of :
    (a b s t : ℕ) (row : PairRow) (d : Bool)
    → row.src ≡ some s
    → row.tgt ≡ some t
    → is_direct row ≡ d
    → from_to a b row ≡ (if ltb 0 a && ltb 0 b && s == a && t == b && d then row.count else 0)
unfolding from_to is_id
from_to-of a b s t row d e f k = rw (e, f, k, from_to) refl

from_to-no_src : (a b : ℕ) (row : PairRow) → row.src ≡ none → from_to a b row ≡ 0
unfolding from_to is_id
from_to-no_src a b row e = rw (e, from_to) (grind arith)

from_to-no_tgt : (a b : ℕ) (row : PairRow) → row.tgt ≡ none → from_to a b row ≡ 0
unfolding from_to is_id
from_to-no_tgt a b row e = rw (e, from_to) (grind arith)

row_traffic-both :
    (a b : ℕ) (row : PairRow)
    → a < b
    → row_traffic (a, b) (row_pair row) row.count ≡ from_to a b row + from_to b a row
unfolding row_traffic row_pair
row_traffic-both a b row less = elim (Option-cases row.src) [
  | inl e ↦ rw (from_to-no_src a b row e, from_to-no_src b a row e, e, row_pair) refl
  | inr (s, e) ↦ elim (Option-cases row.tgt) [
    | inl f ↦ rw (from_to-no_tgt a b row f, from_to-no_tgt b a row f, e, f, row_pair) refl
    | inr (t, f) ↦ elim (Bool-cases (s == 0 || t == 0)) [
      | inl z ↦
          let there = from_to-of a b s t row (is_direct row) e f refl in
          let back = from_to-of b a s t row (is_direct row) e f refl in
          rw (there, back, e, f, row_pair, z) (grind arith)
      | inr z ↦ elim (Option-cases (classify row.row_type row.addressing)) [
        | inl k ↦
            let d = is_direct-of row none false k refl in
            let there = from_to-of a b s t row false e f d in
            let back = from_to-of b a s t row false e f d in
            rw (there, back, e, f, row_pair, z, k) (grind arith)
        | inr (private, k) ↦
            let d = is_direct-of row (some private) true k refl in
            let there = from_to-of a b s t row true e f d in
            let back = from_to-of b a s t row true e f d in
            let part = part-both a b s t row.count less in
            rw (there, back, e, f, row_pair, z, k, part) (grind arith)
        | inr (group, k) ↦
            let d = is_direct-of row (some group) false k refl in
            let there = from_to-of a b s t row false e f d in
            let back = from_to-of b a s t row false e f d in
            rw (there, back, e, f, row_pair, z, k) (grind arith)
      ]
    ]
  ]
]

traffic-both :
    (a b : ℕ) (rows : List PairRow)
    → a < b
    → traffic (a, b) rows ≡ all_from_to a b rows + all_from_to b a rows
unfolding traffic all_from_to
traffic-both a b [] less = refl
traffic-both a b (row ∷ rows) less =
    omega (arith, row_traffic-both a b row less, traffic-both a b rows less)

-- For two ids of radios, the first smaller, the weight that the private edge between them is made of is
-- the sum of the counts of the rows of direct traffic from the one to the other and from the other to
-- the one, and zero if the smaller id is zero.
pub private_weight_lem :
    (rows : List PairRow) (a b : ℕ)
    → a < b
    → counted (collapse [] (add_rows no_totals rows).private_pair) (a, b)
      ≡ all_from_to a b rows + all_from_to b a rows
private_weight_lem rows a b less = weight-traffic rows (a, b) ∙ traffic-both a b rows less
