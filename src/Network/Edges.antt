-- ===== src/Network/Edges.antt =====
-- backend/network.py: the edges and the nodes of the graph from the aggregates.
use dmr_decrep_shahar.Prelude.{
  nat_key, ℕ, min, Bool, Option, none, some, List, [], ◌∷◌, ◌++◌, map, ltb, leb, contains,
  if◌then◌else◌, take,
}
use dmr_decrep_shahar.Dict.{Dict, get, put, keys}
use dmr_decrep_shahar.Sort.{sorted}
use dmr_decrep_shahar.Network.{
  pair_key, PairRow, EdgeKind, group, private, Edge, Node, Totals, no_totals, counted, count_up,
  add_rows,
}

-- the two defaultdicts of the group edges
pub record GroupEdges : Type 0 where
  pub weights : Dict (ℕ × ℕ) ℕ
  pub shared_tgs : Dict (ℕ × ℕ) (List ℕ)

unfoldable pub add_tg : List ℕ → ℕ → List ℕ
add_tg tgs tg = if contains tgs tg then tgs else tgs ++ tg ∷ []

-- the inner loop: `a` with each later radio
unfoldable pub link : GroupEdges → ℕ → Dict ℕ ℕ → ℕ → List ℕ → GroupEdges
unfolding count_up counted add_tg get put
link g tg per_radio a [] = g
link g tg per_radio a (b ∷ radios) =
    let shared : List ℕ = elim (get g.shared_tgs (a, b)) [ none ↦ [] | some tgs ↦ tgs ] in
    link
      (record g {
        weights = count_up g.weights (a, b) (min (counted per_radio a) (counted per_radio b));
        shared_tgs = put g.shared_tgs (a, b) (add_tg shared tg);
      })
      tg per_radio a radios

unfoldable pub link_all : GroupEdges → ℕ → Dict ℕ ℕ → List ℕ → GroupEdges
unfolding link
link_all g tg per_radio [] = g
link_all g tg per_radio (a ∷ radios) = link_all (link g tg per_radio a radios) tg per_radio radios

-- with fewer than two radios no pair is linked
unfoldable pub group_edges : GroupEdges → Dict ℕ (Dict ℕ ℕ) → GroupEdges
unfolding link_all sorted
group_edges g [] = g
group_edges g ((tg, per_radio) ∷ rest) =
    group_edges (link_all g tg per_radio (sorted leb (keys per_radio))) rest

-- `(a, b) if a < b else (b, a)`
unfoldable pub undirected : ℕ × ℕ → ℕ × ℕ
undirected (a, b) = if ltb a b then (a, b) else (b, a)

unfoldable pub collapse : Dict (ℕ × ℕ) ℕ → Dict (ℕ × ℕ) ℕ → Dict (ℕ × ℕ) ℕ
unfolding count_up undirected
collapse weights [] = weights
collapse weights ((pair, c) ∷ rest) = collapse (count_up weights (undirected pair) c) rest

unfoldable pub list_edges : EdgeKind → Dict (ℕ × ℕ) (List ℕ) → ℕ → Dict (ℕ × ℕ) ℕ → List Edge
unfolding get sorted
list_edges kind shared min_weight [] = []
list_edges kind shared min_weight (((a, b), w) ∷ weights) =
    let rest = list_edges kind shared min_weight weights in
    let tgs : List ℕ = elim (get shared (a, b)) [ none ↦ [] | some tgs ↦ sorted leb tgs ] in
    if ltb w min_weight
    then rest
    else record { src_a = a; src_b = b; weight = w; kind = kind; tgs = tgs } ∷ rest

-- the edges before they are ranked
unfoldable pub all_edges : Totals → ℕ → List Edge
unfolding group_edges collapse list_edges
all_edges t min_weight =
    let g = group_edges (record { weights = []; shared_tgs = [] }) t.tg_radio_count in
    list_edges group g.shared_tgs min_weight g.weights
    ++ list_edges private [] min_weight (collapse [] t.private_pair)

-- `edges.sort(key=weight, reverse=True)`, which keeps equal weights in their order
unfoldable pub heavier : Edge → Edge → Bool
heavier a b = leb b.weight a.weight

unfoldable pub rank_edges : List Edge → Option ℕ → List Edge
unfolding sorted heavier
rank_edges edges limit = elim limit [
  | none ↦ sorted heavier edges
  | some n ↦ take n (sorted heavier edges)
]

unfoldable pub add_id : List ℕ → ℕ → List ℕ
add_id ids x = if contains ids x then ids else x ∷ ids

-- `surviving_ids`
unfoldable pub surviving_ids : List ℕ → List Edge → List ℕ
unfolding add_id
surviving_ids ids [] = ids
surviving_ids ids (e ∷ edges) = surviving_ids (add_id (add_id ids e.src_a) e.src_b) edges

unfoldable pub node_of : Totals → List ℕ → ℕ → Node
unfolding counted get contains
node_of t gps_radios id = record {
  id = id;
  total_calls = counted t.total_calls id;
  last_seen = get t.last_seen id;
  has_gps = contains gps_radios id;
}

-- `compute_talker_pairs`: the nodes and the edges
unfoldable pub compute_talker_pairs : List PairRow → List ℕ → ℕ → Option ℕ → List Node × List Edge
unfolding add_rows all_edges rank_edges surviving_ids node_of sorted
compute_talker_pairs rows gps_radios min_weight limit =
    let totals = add_rows no_totals rows in
    let edges = rank_edges (all_edges totals min_weight) limit in
    (map (node_of totals gps_radios) (sorted leb (surviving_ids [] edges)), edges)
