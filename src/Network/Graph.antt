-- ===== src/Network/Graph.antt =====
-- backend/network.py: the ranking of the edges, and the nodes of the graph.
use dmr_decrep_shahar.Prelude.{
  nat_key, ℕ, zero, suc, ◌≤◌, true, false, Option, none, some, List, [], ◌∷◌, map, ◌≡◌, refl, sym,
  ap, ◌∙◌, arith, ◌⊎◌, inl, inr, Member, Member-append, Member-take, All, All-intro, Distinct,
  contains, contains-Member, Member-contains, Bool-cases, length, length-take, take, ltb, leb,
  subst, ◌↔◌,
}
use dmr_decrep_shahar.Dict.{Dict}
use dmr_decrep_shahar.Sort.{
  Ordered, sorted, sorted-Ordered, Member-sorted, sorted-Member, sorted-Distinct,
}
use dmr_decrep_shahar.Network.{
  pair_key, PairRow, EdgeKind, group, private, Edge, Totals, no_totals, add_rows,
}
use dmr_decrep_shahar.Network.Edges.{
  group_edges, collapse, list_edges, all_edges, heavier, rank_edges, add_id, surviving_ids, node_of,
  compute_talker_pairs,
}

abbrev pub Heavier : Edge → Edge → Type 0
Heavier a b = b.weight ≤ a.weight

heavier-Heavier : (a b : Edge) → heavier a b ≡ true → Heavier a b
unfolding heavier
heavier-Heavier a b h = ground arith

heavier-Lighter : (a b : Edge) → heavier a b ≡ false → Heavier b a
unfolding heavier
heavier-Lighter a b h = ground arith

All-take {ℓ κ} : {A : Type ℓ} (P : A → Type κ) (n : ℕ) (xs : List A) → All P xs → All P (take n xs)
All-take P zero xs a = tt
All-take P (suc n) [] a = tt
All-take P (suc n) (x ∷ xs) a = (a.0, All-take P n xs a.1)

Ordered-take {ℓ κ} :
    {A : Type ℓ} (R : A → A → Type κ) (n : ℕ) (xs : List A) → Ordered R xs → Ordered R (take n xs)
Ordered-take R zero xs o = tt
Ordered-take R (suc n) [] o = tt
Ordered-take R (suc n) (x ∷ xs) o = (All-take (R x) n xs o.0, Ordered-take R n xs o.1)

sorted_edges-Ordered : (edges : List Edge) → Ordered Heavier (sorted heavier edges)
sorted_edges-Ordered edges =
    sorted-Ordered heavier Heavier heavier-Heavier heavier-Lighter
      (λ a b c h k. omega (arith, h, k)) edges

rank_edges-Ordered :
    (edges : List Edge) (limit : Option ℕ) → Ordered Heavier (rank_edges edges limit)
unfolding rank_edges
rank_edges-Ordered edges none = sorted_edges-Ordered edges
rank_edges-Ordered edges (some n) =
    Ordered-take Heavier n (sorted heavier edges) (sorted_edges-Ordered edges)

Member-rank_edges :
    (edges : List Edge) (limit : Option ℕ) (e : Edge)
    → Member e (rank_edges edges limit)
    → Member e edges
unfolding rank_edges
Member-rank_edges edges none e m = Member-sorted heavier e edges m
Member-rank_edges edges (some n) e m =
    Member-sorted heavier e edges (Member-take e n (sorted heavier edges) m)

list_edges-weight :
    (kind : EdgeKind) (shared : Dict (ℕ × ℕ) (List ℕ)) (min_weight : ℕ) (weights : Dict (ℕ × ℕ) ℕ)
    (e : Edge)
    → Member e (list_edges kind shared min_weight weights)
    → min_weight ≤ e.weight
unfolding list_edges
list_edges-weight kind shared min_weight [] e m = elim m [ ]
list_edges-weight kind shared min_weight (((a, b), w) ∷ weights) e m =
    elim (Bool-cases (ltb w min_weight)) [
      | inl low ↦ list_edges-weight kind shared min_weight weights e (rw low at m)
      | inr high ↦
          let cases = rw high at m in
          elim cases [
            | inl q ↦ rw (ap (λ (x : Edge). x.weight) q) (ground arith)
            | inr n ↦ list_edges-weight kind shared min_weight weights e n
          ]
    ]

all_edges-weight :
    (t : Totals) (min_weight : ℕ) (e : Edge)
    → Member e (all_edges t min_weight)
    → min_weight ≤ e.weight
unfolding all_edges
all_edges-weight t min_weight e m =
    let g = group_edges (record { weights = []; shared_tgs = [] }) t.tg_radio_count in
    let p = collapse [] t.private_pair in
    elim (Member-append e (list_edges group g.shared_tgs min_weight g.weights)
      (list_edges private [] min_weight p) m) [
        | inl n ↦ list_edges-weight group g.shared_tgs min_weight g.weights e n
        | inr n ↦ list_edges-weight private [] min_weight p e n
      ]

-- The edges of the graph come with the heaviest first and none is below the least weight asked for;
-- a limit on them is kept.
pub compute_talker_pairs-ranked :
    (rows : List PairRow) (gps_radios : List ℕ) (min_weight n : ℕ)
    → Ordered Heavier (compute_talker_pairs rows gps_radios min_weight (some n)).1
      × All
          (λ e. min_weight ≤ e.weight)
          (compute_talker_pairs rows gps_radios min_weight (some n)).1
      × (length (compute_talker_pairs rows gps_radios min_weight (some n)).1 ≤ n)
unfolding compute_talker_pairs rank_edges
compute_talker_pairs-ranked rows gps_radios min_weight n =
    let edges = all_edges (add_rows no_totals rows) min_weight in
    (
      rank_edges-Ordered edges (some n),
      All-intro _ (rank_edges edges (some n)) (λ e m.
          all_edges-weight (add_rows no_totals rows) min_weight e
            (Member-rank_edges edges (some n) e m)),
      omega (arith, length-take n (sorted heavier edges)),
    )

-- the radio is at an end of one of the edges
abbrev pub Joined : ℕ → List Edge → Type 0
Joined id edges = (e : Edge) × Member e edges × ((id ≡ e.src_a) ⊎ (id ≡ e.src_b))

add_id-Member : (ids : List ℕ) (x z : ℕ) → Member z ids ⊎ (z ≡ x) → Member z (add_id ids x)
unfolding add_id
add_id-Member ids x z m = elim (Bool-cases (contains ids x)) [
  | inl b ↦ rw b (elim m [ inl l ↦ l | inr p ↦ rw p (Member-contains ids x b) ])
  | inr b ↦ rw b (elim m [ inl l ↦ inr l | inr p ↦ inl p ])
]

Member-add_id : (ids : List ℕ) (x z : ℕ) → Member z (add_id ids x) → Member z ids ⊎ (z ≡ x)
unfolding add_id
Member-add_id ids x z m = elim (Bool-cases (contains ids x)) [
  | inl b ↦ inl (rw b at m)
  | inr b ↦ ground (arith, (rw b at m))
]

add_id-Distinct : (ids : List ℕ) (x : ℕ) → Distinct ids → Distinct (add_id ids x)
unfolding add_id
add_id-Distinct ids x d = elim (Bool-cases (contains ids x)) [
  | inl b ↦ rw b d
  | inr b ↦ rw b ((λ m. cc (b, contains-Member ids x m)), d)
]

surviving_ids-Distinct :
    (ids : List ℕ) (edges : List Edge) → Distinct ids → Distinct (surviving_ids ids edges)
unfolding surviving_ids
surviving_ids-Distinct ids [] d = d
surviving_ids-Distinct ids (e ∷ edges) d =
    surviving_ids-Distinct (add_id (add_id ids e.src_a) e.src_b) edges
      (add_id-Distinct (add_id ids e.src_a) e.src_b (add_id-Distinct ids e.src_a d))

surviving_ids-old :
    (ids : List ℕ) (edges : List Edge) (z : ℕ) → Member z ids → Member z (surviving_ids ids edges)
unfolding surviving_ids
surviving_ids-old ids [] z m = m
surviving_ids-old ids (e ∷ edges) z m =
    surviving_ids-old (add_id (add_id ids e.src_a) e.src_b) edges z
      (add_id-Member (add_id ids e.src_a) e.src_b z (inl (add_id-Member ids e.src_a z (inl m))))

surviving_ids-Joined :
    (ids : List ℕ) (edges : List Edge) (z : ℕ) → Joined z edges → Member z (surviving_ids ids edges)
unfolding surviving_ids
surviving_ids-Joined ids [] z (e, m, p) = elim m [ ]
surviving_ids-Joined ids (f ∷ edges) z (e, inr m, p) =
    surviving_ids-Joined (add_id (add_id ids f.src_a) f.src_b) edges z (e, m, p)
surviving_ids-Joined ids (f ∷ edges) z (e, inl q, inl p) =
    surviving_ids-old (add_id (add_id ids f.src_a) f.src_b) edges z (
      add_id-Member (add_id ids f.src_a) f.src_b z
        (inl (add_id-Member ids f.src_a z (inr (p ∙ ap (λ (x : Edge). x.src_a) q)))))
surviving_ids-Joined ids (f ∷ edges) z (e, inl q, inr p) =
    surviving_ids-old (add_id (add_id ids f.src_a) f.src_b) edges z
      (add_id-Member (add_id ids f.src_a) f.src_b z (inr (p ∙ ap (λ (x : Edge). x.src_b) q)))

Joined-surviving_ids :
    (ids : List ℕ) (edges : List Edge) (z : ℕ)
    → Member z (surviving_ids ids edges)
    → Member z ids ⊎ Joined z edges
unfolding surviving_ids
Joined-surviving_ids ids [] z m = inl m
Joined-surviving_ids ids (f ∷ edges) z m =
    elim (Joined-surviving_ids (add_id (add_id ids f.src_a) f.src_b) edges z m) [
      | inr (e, n, p) ↦ inr (e, inr n, p)
      | inl n ↦ elim (Member-add_id (add_id ids f.src_a) f.src_b z n) [
        | inr p ↦ inr (f, inl refl, inr p)
        | inl k ↦ elim (Member-add_id ids f.src_a z k) [
          | inl o ↦ inl o
          | inr p ↦ inr (f, inl refl, inl p)
        ]
      ]
    ]

map_id-node_of :
    (t : Totals) (gps_radios ids : List ℕ) → map (λ n. n.id) (map (node_of t gps_radios) ids) ≡ ids
unfolding node_of
map_id-node_of t gps_radios [] = refl
map_id-node_of t gps_radios (x ∷ ids) = ap (◌∷◌ x) (map_id-node_of t gps_radios ids)

map_same : (ids : List ℕ) → map (λ x. x) ids ≡ ids
map_same [] = refl
map_same (x ∷ ids) = ap (◌∷◌ x) (map_same ids)

-- The nodes of the graph are the radios that its edges join and no others, each of them once.
pub compute_talker_pairs-nodes :
    (rows : List PairRow) (gps_radios : List ℕ) (min_weight : ℕ) (limit : Option ℕ) (id : ℕ)
    → (Member id (map (λ n. n.id) (compute_talker_pairs rows gps_radios min_weight limit).0)
        ↔ Joined id (compute_talker_pairs rows gps_radios min_weight limit).1)
      × Distinct (map (λ n. n.id) (compute_talker_pairs rows gps_radios min_weight limit).0)
unfolding compute_talker_pairs
compute_talker_pairs-nodes rows gps_radios min_weight limit id =
    let t = add_rows no_totals rows in
    let edges = rank_edges (all_edges t min_weight) limit in
    let ids = surviving_ids [] edges in
    let same : map (λ n. n.id) (map (node_of t gps_radios) (sorted leb ids)) ≡ sorted leb ids =
      map_id-node_of t gps_radios (sorted leb ids) in
    let distinct : Distinct (sorted leb ids) = subst Distinct (map_same (sorted leb ids)) (
      sorted-Distinct leb (λ x. x) ids
        (subst Distinct (sym (map_same ids)) (surviving_ids-Distinct [] edges tt))) in
    (
      (
        (λ m.
            elim (Joined-surviving_ids [] edges id
              (Member-sorted leb id ids (subst (Member id) same m))) [
                | inl n ↦ elim n [ ]
                | inr j ↦ j
              ]),
        (λ j.
            subst (Member id) (sym same)
              (sorted-Member leb id ids (surviving_ids-Joined [] edges id j))),
      ),
      subst Distinct (sym same) distinct,
    )
