-- ===== src/Network/Traffic.antt =====
-- backend/network.py: the weights of the private edges as a sum over the rows.
use dmr_decrep_shahar.Prelude.{
  nat_key, ℕ, ◌+◌, Option, none, some, List, [], ◌∷◌, ◌≡◌, ◌≢◌, refl, ap, ◌∙◌, arith, if_pos,
  if_neg, ite, Key,
}
use dmr_decrep_shahar.Dict.{Dict, get, put}
use dmr_decrep_shahar.Dict.Laws.{get-put_self, get-put_ne}
use dmr_decrep_shahar.Network.{
  pair_key, pair_discrete, PairRow, EdgeKind, group, private, Totals, no_totals, counted, count_up,
  add_pair, add_group, add_private, row_pair, add_rows,
}
use dmr_decrep_shahar.Network.Edges.{undirected, collapse}

-- `n` if the pair is `p` once its order is forgotten
unfoldable pub part : ℕ × ℕ → ℕ × ℕ → ℕ → ℕ
unfolding undirected
part p x n = ite (pair_discrete (undirected x) p) n 0

-- the direct traffic between two radios in the rows
unfoldable pub row_traffic : ℕ × ℕ → Option (EdgeKind × ℕ × ℕ) → ℕ → ℕ
unfolding part
row_traffic p (some (private, src, tgt)) n = part p (src, tgt) n
row_traffic p (some (group, src, tgt)) n = 0
row_traffic p none n = 0

unfoldable pub traffic : ℕ × ℕ → List PairRow → ℕ
unfolding row_traffic row_pair
traffic p [] = 0
traffic p (row ∷ rows) = row_traffic p (row_pair row) row.count + traffic p rows

between : ℕ × ℕ → Dict (ℕ × ℕ) ℕ → ℕ
between p [] = 0
between p ((x, c) ∷ d) = part p x c + between p d

part-add : (p x : ℕ × ℕ) (m n : ℕ) → part p x (m + n) ≡ part p x m + part p x n
unfolding part
part-add p x m n = ground arith

counted_head : (y x : ℕ × ℕ) (w : ℕ) (d : Dict (ℕ × ℕ) ℕ) → y ≡ x → counted ((y, w) ∷ d) x ≡ w
unfolding counted get
counted_head y x w d e =
    let found : get ((y, w) ∷ d) x ≡ some w = if_pos (pair_discrete y x) e (some w) (get d x) in
    rw (found, counted) refl

counted_tail :
    (y x : ℕ × ℕ) (w : ℕ) (d : Dict (ℕ × ℕ) ℕ) → y ≢ x → counted ((y, w) ∷ d) x ≡ counted d x
unfolding counted get
counted_tail y x w d e =
    let found : get ((y, w) ∷ d) x ≡ get d x = if_neg (pair_discrete y x) e (some w) (get d x) in
    rw (found, counted) refl

counted_nil : (x : ℕ × ℕ) → counted [] x ≡ 0
unfolding counted get
counted_nil x = refl

between-put :
    (p x : ℕ × ℕ) (n : ℕ) (d : Dict (ℕ × ℕ) ℕ)
    → between p (put d x (counted d x + n)) ≡ between p d + part p x n
unfolding between put
between-put p x n [] = rw (counted_nil x) (ground arith)
between-put p x n ((y, w) ∷ d) =
    let inside = between-put p x n d in
    elim (pair_discrete y x) [
      | yes e ↦
          let same : part p y (w + n) ≡ part p y w + part p x n =
            part-add p y w n ∙ ap (λ z. part p y w + part p z n) e in
          rw (if_pos _ e, counted_head y x w d e) (omega (arith, same))
      | no e ↦ rw (if_neg _ e, counted_tail y x w d e) (omega (arith, inside))
    ]

module _ {K : Type 0} ⦃k : Key K⦄ where
  counted-count_up_self :
      (d : Dict K ℕ) (x : K) (n : ℕ) → counted (count_up d x n) x ≡ counted d x + n
  unfolding count_up counted
  counted-count_up_self d x n = rw (get-put_self d x (counted d x + n), counted) refl

  counted-count_up_ne :
      (d : Dict K ℕ) (x z : K) (n : ℕ) → x ≢ z → counted (count_up d x n) z ≡ counted d z
  unfolding count_up counted
  counted-count_up_ne d x z n e = rw (get-put_ne d x z (counted d x + n) e, counted) refl

counted-collapse :
    (p : ℕ × ℕ) (weights d : Dict (ℕ × ℕ) ℕ)
    → counted (collapse weights d) p ≡ counted weights p + between p d
unfolding collapse between part
counted-collapse p weights [] = omega arith
counted-collapse p weights ((x, c) ∷ d) =
    let rest = counted-collapse p (count_up weights (undirected x) c) d in
    elim (pair_discrete (undirected x) p) [
      | yes e ↦
          let here : counted (count_up weights (undirected x) c) p ≡ counted weights p + c =
            rw e (counted-count_up_self weights p c) in
          rw (if_pos _ e) (omega (arith, rest, here))
      | no e ↦
          let other = counted-count_up_ne weights (undirected x) p c e in
          rw (if_neg _ e) (omega (arith, rest, other))
    ]

add_pair-between :
    (p : ℕ × ℕ) (t : Totals) (row : PairRow) (pair : Option (EdgeKind × ℕ × ℕ))
    → between p (add_pair t row pair).private_pair
      ≡ between p t.private_pair + row_traffic p pair row.count
unfolding add_pair add_group add_private row_traffic count_up
add_pair-between p t row none = omega arith
add_pair-between p t row (some (group, src, tgt)) = omega arith
add_pair-between p t row (some (private, src, tgt)) =
    between-put p (src, tgt) row.count t.private_pair

add_rows-between :
    (p : ℕ × ℕ) (t : Totals) (rows : List PairRow)
    → between p (add_rows t rows).private_pair ≡ between p t.private_pair + traffic p rows
unfolding add_rows traffic
add_rows-between p t [] = omega arith
add_rows-between p t (row ∷ rows) = omega (
  arith,
  add_rows-between p (add_pair t row (row_pair row)) rows,
  add_pair-between p t row (row_pair row),
)

-- the weight of a pair against the traffic of the rows, each in its own order
pub weight-traffic :
    (rows : List PairRow) (p : ℕ × ℕ)
    → counted (collapse [] (add_rows no_totals rows).private_pair) p ≡ traffic p rows
unfolding between counted get
weight-traffic rows p = omega (
  arith,
  counted-collapse p [] (add_rows no_totals rows).private_pair,
  add_rows-between p no_totals rows,
)
