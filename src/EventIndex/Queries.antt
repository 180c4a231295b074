-- ===== src/EventIndex/Queries.antt =====
-- backend/event_index.py: what the index answers. A query commits first, so it reads all rows. Where SQL
-- groups rows, the groups stand in the order of their first rows, and rows of one time stamp in the order
-- of `rowid`: SQL leaves both open. A test on a missing value is false.
use dmr_decrep_shahar.Prelude.{
  nat_key, string_key, ℕ, ◌+◌, ◌/◌, ◌%◌, min, max, String, Bool, true, false, ◌&&◌, Option, none,
  some, List, [], ◌∷◌, map, length, leb, ◌==◌, if◌then◌else◌, take, drop, filter, contains, Key,
}
use dmr_decrep_shahar.Dict.{Dict}
use dmr_decrep_shahar.Sort.{sorted}
use dmr_decrep_shahar.Network.{count_up, is_text}
use dmr_decrep_shahar.Models.{Event}
use dmr_decrep_shahar.EventIndex.{EventIndex, Row, all_rows, commit}

-- the arguments of `_build_where`
pub record Where : Type 0 where
  pub since : Option ℕ
  pub until : Option ℕ
  pub src : Option ℕ
  pub tgt : Option ℕ
  pub types : List String
  pub day_from : Option ℕ
  pub day_to : Option ℕ

abbrev pub no_where : Where
no_where = record {
  since = none;
  until = none;
  src = none;
  tgt = none;
  types = [];
  day_from = none;
  day_to = none;
}

-- a clause that is there if its argument is
unfoldable pub clause {ℓ} : {A : Type ℓ} → Option A → (A → Bool) → Bool
clause none test = true
clause (some a) test = test a

-- `column = ?`
unfoldable pub is_number : Option ℕ → ℕ → Bool
is_number none n = false
is_number (some m) n = m == n

-- `_build_where`, as a test on a row
unfoldable pub build_where : Where → Row → Bool
unfolding clause is_number contains
build_where w row =
    clause w.since (λ t. leb t row.ts)
    && clause w.until (λ t. leb row.ts t)
    && clause w.day_from (λ d. leb d row.day)
    && clause w.day_to (λ d. leb row.day d)
    && clause w.src (is_number row.src)
    && clause w.tgt (is_number row.tgt)
    && (elim w.types [ [] ↦ true | _ ∷ _ ↦ contains w.types row.row_type ])

-- the rows of a query
unfoldable pub where_rows : Where → EventIndex → List Row
unfolding build_where
where_rows w x = filter (build_where w) (all_rows x)

-- `ORDER BY ts`, ascending or descending
unfoldable pub order_rows : Bool → List Row → List Row
unfolding sorted
order_rows descending xs = sorted (λ a b. if descending then leb b.ts a.ts else leb a.ts b.ts) xs

-- `query`
unfoldable pub query : ℕ → EventIndex → Where → ℕ → ℕ → Bool → EventIndex × List Event
unfolding commit where_rows order_rows
query now x w limit offset descending = (
  commit now x,
  map (λ row. row.payload) (take limit (drop offset (order_rows descending (where_rows w x)))),
)

-- `stream_query`: a connection of its own, which reads what is committed
unfoldable pub stream_query : EventIndex → Where → List Event
unfolding build_where order_rows
stream_query x w = map (λ row. row.payload) (order_rows false (filter (build_where w) x.committed))

-- `count`
unfoldable pub count_rows : EventIndex → Where → ℕ
unfolding where_rows
count_rows x w = length (where_rows w x)

-- `SELECT column, COUNT(*) ... GROUP BY column`
unfoldable pub count_groups : {K : Type 0} ⦃k : Key K⦄ → (Row → K) → List Row → Dict K ℕ → Dict K ℕ
unfolding count_up
count_groups column [] d = d
count_groups column (row ∷ more) d = count_groups column more (count_up d (column row) 1)

-- `count_by_type`
unfoldable pub count_by_type : EventIndex → Option ℕ → Option ℕ → Dict String ℕ
unfolding where_rows count_groups
count_by_type x since until =
    count_groups (λ row. row.row_type)
      (where_rows (record no_where { since = since; until = until }) x) []

-- `count_quality_by_kind`; a missing kind is the empty text
unfoldable pub count_quality_by_kind : EventIndex → Option ℕ → Dict String ℕ
unfolding where_rows count_groups
count_quality_by_kind x since =
    count_groups (λ row. elim row.error_type [ none ↦ "" | some kind ↦ kind ])
      (where_rows (record no_where { since = since; types = "quality" ∷ [] }) x) []

-- `MIN(ts)` and `MAX(ts)`
unfoldable pub min_ts : List Row → Option ℕ
min_ts [] = none
min_ts (row ∷ more) = elim (min_ts more) [ none ↦ some row.ts | some t ↦ some (min row.ts t) ]

unfoldable pub max_ts : List Row → Option ℕ
max_ts [] = none
max_ts (row ∷ more) = elim (max_ts more) [ none ↦ some row.ts | some t ↦ some (max row.ts t) ]

-- `time_bounds`
unfoldable pub time_bounds : EventIndex → Option ℕ → Option ℕ × Option ℕ
unfolding where_rows min_ts max_ts
time_bounds x since =
    let xs = where_rows (record no_where { since = since }) x in (min_ts xs, max_ts xs)

-- the numbers that are there
unfoldable pub present : List (Option ℕ) → List ℕ
present [] = []
present (none ∷ os) = present os
present (some n ∷ os) = n ∷ present os

-- `{...}` of numbers
unfoldable pub distinct : List ℕ → List ℕ
unfolding contains
distinct [] = []
distinct (n ∷ ns) = let rest = distinct ns in if contains rest n then rest else n ∷ rest

-- `distinct_gps_radios`
unfoldable pub distinct_gps_radios : EventIndex → Option ℕ → List ℕ
unfolding where_rows present distinct
distinct_gps_radios x since =
    let xs = where_rows (record no_where { since = since; types = "lrrp_position" ∷ [] }) x in
    distinct (present (map (λ row. row.src) xs))

unfoldable pub count_numbers : List ℕ → Dict ℕ ℕ → Dict ℕ ℕ
unfolding count_up
count_numbers [] d = d
count_numbers (n ∷ ns) d = count_numbers ns (count_up d n 1)

-- `count_by_tgt`
unfoldable pub count_by_tgt : EventIndex → ℕ → Option ℕ → List String → Dict ℕ ℕ
unfolding where_rows present count_numbers
count_by_tgt x src since types =
    let xs = where_rows (record no_where { since = since; src = some src; types = types }) x in
    count_numbers (present (map (λ row. row.tgt) xs)) []

-- the least and the greatest of those that are there
unfoldable pub lesser : Option ℕ → Option ℕ → Option ℕ
lesser none b = b
lesser (some a) none = some a
lesser (some a) (some b) = some (min a b)

unfoldable pub greater : Option ℕ → Option ℕ → Option ℕ
greater none b = b
greater (some a) none = some a
greater (some a) (some b) = some (max a b)

-- `radio_bounds`: two queries, merged
unfoldable pub radio_bounds : EventIndex → ℕ → Option ℕ → Option ℕ × Option ℕ
unfolding clause is_number min_ts max_ts lesser greater
radio_bounds x radio since =
    let late : Row → Bool = λ row. clause since (λ t. leb t row.ts) in
    let as_src = filter (λ row. is_number row.src radio && late row) (all_rows x) in
    let as_tgt = filter (λ row. is_number row.tgt radio && late row) (all_rows x) in
    (lesser (min_ts as_src) (min_ts as_tgt), greater (max_ts as_src) (max_ts as_tgt))

-- the hour of a time stamp
unfoldable pub hour_of : ℕ → ℕ
hour_of ts = ts / 3_600_000_000 % 24

-- `hourly[hour]` of `hourly_histogram`
unfoldable pub hourly_count : EventIndex → ℕ → Option ℕ → ℕ → ℕ
unfolding clause is_number hour_of
hourly_count x radio since hour =
    let late : Row → Bool = λ row. clause since (λ t. leb t row.ts) && hour_of row.ts == hour in
    length (filter (λ row. is_number row.src radio && late row) (all_rows x))
    + length (filter (λ row. is_number row.tgt radio && late row) (all_rows x))

-- `count_encryption_by_slot`
unfoldable pub count_encryption_by_slot : EventIndex → Option ℕ → Dict ℕ ℕ
unfolding where_rows present count_numbers
count_encryption_by_slot x since =
    let xs = where_rows (record no_where { since = since; types = "encryption" ∷ [] }) x in
    count_numbers (present (map (λ row. row.slot) xs)) []

-- an entry of `days_summary`
pub record DaySummary : Type 0 where
  pub day : ℕ
  pub events : ℕ
  pub voice_events : ℕ
  pub first_ts : Option ℕ
  pub last_ts : Option ℕ

unfoldable pub day_summary : List Row → ℕ → DaySummary
unfolding is_text min_ts max_ts
day_summary xs day =
    let ys = filter (λ row. row.day == day) xs in
    record {
      day = day;
      events = length ys;
      voice_events = length (filter (λ row. is_text row.row_type "voice_call") ys);
      first_ts = min_ts ys;
      last_ts = max_ts ys;
    }

-- `days_summary`
unfoldable pub days_summary : EventIndex → List DaySummary
unfolding distinct sorted day_summary
days_summary x =
    map (day_summary (all_rows x)) (sorted leb (distinct (map (λ row. row.day) (all_rows x))))
