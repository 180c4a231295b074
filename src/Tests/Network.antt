-- ===== src/Tests/Network.antt =====
-- backend/network.py: three radios, two of them on one talkgroup and two in direct traffic.
use dmr_decrep_shahar.Prelude.{
  nat_key, ℕ, ◌≤◌, ◌+◌, arith, ◌↔◌, String, Option, none, some, List, [], ◌∷◌, map, ◌≡◌, refl,
  Member, All, Distinct, length, ℕ_discrete, String_discrete, contains,
}
use dmr_decrep_shahar.Dict.{get, put}
use dmr_decrep_shahar.Sort.{Ordered, sorted, insert}
use dmr_decrep_shahar.Text.{string_leb}
use dmr_decrep_shahar.Network.{
  pair_key, pair_discrete, PairRow, Edge, EdgeKind, group, private, classify, by_addressing,
  is_text, counted, count_up, see_text, add_group, add_private, row_pair, add_pair, add_rows,
  no_totals,
}
use dmr_decrep_shahar.Network.Edges.{
  add_tg, link, link_all, group_edges, undirected, collapse, list_edges, all_edges, heavier,
  rank_edges, compute_talker_pairs,
}
use dmr_decrep_shahar.Network.Private.{is_id, is_direct, from_to, all_from_to, private_weight_lem}
use dmr_decrep_shahar.Network.Graph.{
  Heavier, Joined, compute_talker_pairs-ranked, compute_talker_pairs-nodes,
}

abbrev row : ℕ → ℕ → String → Option String → ℕ → PairRow
row src tgt row_type addressing count = record {
  src = some src;
  tgt = some tgt;
  row_type = row_type;
  addressing = addressing;
  count = count;
  max_ts = some "2024-01-01T00:00:00";
}

abbrev rows : List PairRow
rows =
    row 7 100 "voice_call" none 5
    ∷ row 8 100 "voice_call" none 3
    ∷ row 8 7 "data_header" (some "Indiv") 2
    ∷ row 7 8 "lrrp_request" none 4
    ∷ []

abbrev edge : ℕ → EdgeKind → List ℕ → Edge
edge weight kind tgs = record { src_a = 7; src_b = 8; weight = weight; kind = kind; tgs = tgs }

pairs : (compute_talker_pairs rows [] 1 none).1 ≡ edge 6 private [] ∷ edge 3 group (100 ∷ []) ∷ []
unfolding compute_talker_pairs add_rows add_pair row_pair classify by_addressing is_text add_group
    add_private count_up counted see_text string_leb all_edges group_edges link_all link add_tg
    collapse undirected list_edges rank_edges heavier sorted insert get put pair_discrete contains
    ℕ_discrete String_discrete
pairs = refl

private_weight_lem_example :
    counted (collapse [] (add_rows no_totals rows).private_pair) (7, 8)
    ≡ all_from_to 7 8 rows + all_from_to 8 7 rows
private_weight_lem_example = private_weight_lem rows 7 8 (omega arith)

traffic_of_rows : (all_from_to 7 8 rows ≡ 4) × (all_from_to 8 7 rows ≡ 2)
unfolding all_from_to from_to is_id is_direct classify by_addressing is_text String_discrete
traffic_of_rows = (refl, refl)

compute_talker_pairs-ranked_example :
    Ordered Heavier (compute_talker_pairs rows [] 1 (some 1)).1
    × All (λ e. 1 ≤ e.weight) (compute_talker_pairs rows [] 1 (some 1)).1
    × (length (compute_talker_pairs rows [] 1 (some 1)).1 ≤ 1)
compute_talker_pairs-ranked_example = compute_talker_pairs-ranked rows [] 1 1

compute_talker_pairs-nodes_example :
    (Member 7 (map (λ n. n.id) (compute_talker_pairs rows [] 1 none).0)
      ↔ Joined 7 (compute_talker_pairs rows [] 1 none).1)
    × Distinct (map (λ n. n.id) (compute_talker_pairs rows [] 1 none).0)
compute_talker_pairs-nodes_example = compute_talker_pairs-nodes rows [] 1 none 7
