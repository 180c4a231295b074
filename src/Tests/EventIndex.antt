-- ===== src/Tests/EventIndex.antt =====
-- backend/event_index.py: three  in chunks of one.
use dmr_decrep_shahar.Prelude.{
  nat_key, string_key, ℕ, String_discrete, true, false, none, some, [], ◌∷◌, ◌≡◌, refl, arith,
  contains,
}
use dmr_decrep_shahar.Dict.{get, put}
use dmr_decrep_shahar.Sort.{insert, sorted}
use dmr_decrep_shahar.Network.{counted, count_up}
use dmr_decrep_shahar.Models.{Event, Body, type_name, quality}
use dmr_decrep_shahar.EventIndex.{
  EventIndex, Row, new_index, commit, index_append, extract_columns, day_of, src_column, tgt_column,
  slot_column, addressing_column, error_column, encrypted_column, prune_index_older_than,
  prune_index_days,
}
use dmr_decrep_shahar.EventIndex.Queries.{
  no_where, clause, is_number, build_where, where_rows, order_rows, query, count_groups,
  count_by_type,
}
use dmr_decrep_shahar.EventIndex.Pruning.{ended, prune_index-all}

abbrev at : ℕ → Body → Event
at ts body = record {
  timestamp = ts;
  raw_line = "";
  schema_version = 1;
  frequency = none;
  channel_label = none;
  body = body;
}

abbrev row_at : ℕ → Row
row_at ts = record {
  ts = ts;
  day = 0;
  row_type = "quality";
  src = none;
  tgt = none;
  slot = none;
  addressing = none;
  error_type = some "CSBK_CRC";
  encrypted = false;
  frequency = none;
  channel_label = none;
  schema_version = 1;
  payload = at ts (quality "CSBK_CRC");
}

abbrev three_rows : EventIndex
three_rows = record {
  committed = row_at 10 ∷ row_at 20 ∷ [];
  pending = row_at 30 ∷ [];
  last_commit = 0;
  timer = true;
  closed = false;
}

prune_index-all_example :
    (prune_index_older_than 25 1 40 three_rows ≡ ended 40 (row_at 30 ∷ []) 2)
    × (prune_index_days 25 1 40 three_rows ≡ ended 40 [] 3)
prune_index-all_example = prune_index-all 25 1 40 three_rows (omega arith) refl

appended : index_append 7 (new_index 5) (at 10 (quality "CSBK_CRC")) ≡ record {
  committed = [];
  pending = row_at 10 ∷ [];
  last_commit = 5;
  timer = true;
  closed = false;
}
unfolding index_append new_index extract_columns commit day_of type_name src_column tgt_column
    slot_column addressing_column error_column encrypted_column
appended = refl

newest :
    (query 40 three_rows (record no_where { until = some 25 }) 1 0 true).1
    ≡ at 20 (quality "CSBK_CRC") ∷ []
unfolding query commit where_rows order_rows build_where clause is_number contains sorted insert
newest = refl

counts : count_by_type three_rows (some 15) none ≡ ("quality", 2) ∷ []
unfolding count_by_type where_rows build_where clause is_number contains count_groups count_up
    counted get put String_discrete
counts = refl
