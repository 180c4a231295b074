-- ===== src/EventIndex/Aggregates.antt =====
-- backend/event_index.py: `pair_counts`, whose rows the network is made of, and `day_stats`. The ISO text of
-- a time is a parameter of the first. The hours of a day are numbered from the epoch, in place of their texts.
use dmr_decrep_shahar.Prelude.{
  nat_key, string_key, ℕ, ◌+◌, ◌/◌, String, Bool, true, false, ◌&&◌, Option, none, some, List, [],
  ◌∷◌, map, length, take, filter, ltb, leb, ◌==◌, if◌then◌else◌,
}
use dmr_decrep_shahar.Dict.{Dict}
use dmr_decrep_shahar.Sort.{sorted}
use dmr_decrep_shahar.Network.{PairRow, counted, count_up, is_text}
use dmr_decrep_shahar.EventIndex.{EventIndex, Row, all_rows}
use dmr_decrep_shahar.EventIndex.Queries.{
  no_where, where_rows, count_groups, count_numbers, present, min_ts, max_ts,
}

-- two values of a column that `GROUP BY` takes for one: missing values are
unfoldable pub same_column : Option ℕ → Option ℕ → Bool
same_column none none = true
same_column none (some n) = false
same_column (some m) none = false
same_column (some m) (some n) = m == n

unfoldable pub same_text : Option String → Option String → Bool
unfolding is_text
same_text none none = true
same_text none (some t) = false
same_text (some s) none = false
same_text (some s) (some t) = is_text s t

-- whether two rows are of one group
unfoldable pub same_pair : Row → Row → Bool
unfolding same_column same_text is_text
same_pair a b =
    same_column a.src b.src
    && same_column a.tgt b.tgt
    && is_text a.row_type b.row_type
    && same_text a.addressing b.addressing

unfoldable pub has_pair : List Row → Row → Bool
unfolding same_pair
has_pair [] row = false
has_pair (x ∷ xs) row = if same_pair x row then true else has_pair xs row

-- a row of each group
unfoldable pub group_rows : List Row → List Row
unfolding has_pair
group_rows [] = []
group_rows (row ∷ more) =
    let rest = group_rows more in if has_pair rest row then rest else row ∷ rest

unfoldable pub pair_row : (ℕ → String) → List Row → Row → PairRow
unfolding same_pair max_ts
pair_row iso rows row =
    let group = filter (same_pair row) rows in
    record {
      src = row.src;
      tgt = row.tgt;
      row_type = row.row_type;
      addressing = row.addressing;
      count = length group;
      max_ts = elim (max_ts group) [ none ↦ none | some t ↦ some (iso t) ];
    }

-- `pair_counts`
unfoldable pub pair_counts : (ℕ → String) → EventIndex → Option ℕ → List String → List PairRow
unfolding where_rows group_rows pair_row
pair_counts iso x since types =
    let found = where_rows (record no_where { since = since; types = types }) x in
    map (pair_row iso found) (group_rows found)

-- the rows whose column is missing
unfoldable pub count_missing : List (Option ℕ) → ℕ
count_missing [] = 0
count_missing (none ∷ os) = count_missing os + 1
count_missing (some n ∷ os) = count_missing os

-- the groups whose column is there: a missing one is dropped when the answer is read
unfoldable pub named_groups : List (Option ℕ × ℕ) → Dict ℕ ℕ
named_groups [] = []
named_groups ((none, n) ∷ more) = named_groups more
named_groups ((some k, n) ∷ more) = (k, n) ∷ named_groups more

-- `GROUP BY column ORDER BY COUNT(*) DESC LIMIT 20`, where missing values are a group too
unfoldable pub top_groups : List (Option ℕ) → Dict ℕ ℕ
unfolding count_missing named_groups count_numbers present sorted
top_groups os =
    let named : List (Option ℕ × ℕ) = map (λ e. (some e.0, e.1)) (count_numbers (present os) []) in
    let missing = count_missing os in
    let groups = if missing == 0 then named else (none, missing) ∷ named in
    named_groups (take 20 (sorted (λ a b. leb b.1 a.1) groups))

-- the voice frames of radios that are named
unfoldable pub is_voice : Row → Bool
unfolding is_text
is_voice row =
    is_text row.row_type "voice_call" && (elim row.src [ none ↦ false | some n ↦ ltb 0 n ])

pub record DayStats : Type 0 where
  pub window_size : ℕ
  pub first_at : Option ℕ
  pub last_at : Option ℕ
  pub by_type : Dict String ℕ
  pub frames_by_src : Dict ℕ ℕ
  pub frames_by_tg : Dict ℕ ℕ
  pub positions : Dict ℕ ℕ
  pub by_hour : Dict ℕ ℕ
  pub encrypted : ℕ
  pub by_kind : Dict String ℕ

unfoldable pub kinds_of : List Row → List String
kinds_of [] = []
kinds_of (row ∷ rows) =
    let rest = kinds_of rows in elim row.error_type [ none ↦ rest | some kind ↦ kind ∷ rest ]

unfoldable pub count_texts : List String → Dict String ℕ → Dict String ℕ
unfolding count_up
count_texts [] d = d
count_texts (t ∷ ts) d = count_texts ts (count_up d t 1)

-- `day_stats`
unfoldable pub day_stats : EventIndex → ℕ → DayStats
unfolding is_voice is_text count_groups top_groups min_ts max_ts counted kinds_of count_texts sorted
day_stats x day =
    let rows = filter (λ row. row.day == day) (all_rows x) in
    let voice = filter is_voice rows in
    let located = filter (λ row. is_text row.row_type "lrrp_position") rows in
    let errors = filter (λ row. is_text row.row_type "quality") rows in
    let by_type = count_groups (λ row. row.row_type) rows [] in
    record {
      window_size = length rows;
      first_at = min_ts rows;
      last_at = max_ts rows;
      by_type = by_type;
      frames_by_src = top_groups (map (λ row. row.src) voice);
      frames_by_tg = top_groups (map (λ row. row.tgt) voice);
      positions = top_groups (map (λ row. row.src) located);
      by_hour = sorted (λ a b. leb a.0 b.0) (count_groups (λ row. row.ts / 3_600_000_000) rows []);
      encrypted = counted by_type "encryption";
      by_kind = count_texts (kinds_of errors) [];
    }
