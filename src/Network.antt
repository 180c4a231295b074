-- ===== src/Network.antt =====
-- backend/network.py: who talks with whom. The rows are the answer of the event index for the window,
-- one for each source, target, type and addressing; time stamps are texts, as there.
pub mod Edges
pub mod Traffic
pub mod Private
pub mod Graph
use dmr_decrep_shahar.Prelude.{
  nat_key, ℕ, ◌+◌, min, String, Bool, true, false, not, ◌||◌, Option, none, some, List, [], ◌∷◌,
  ◌++◌, map, ltb, leb, ◌==◌, contains, if◌then◌else◌, ite, take, ℕ_discrete, String_discrete, Key,
  filter, ap, ◌≡◌,
}
use dmr_decrep_shahar.Dict.{Dict, get, put, keys}
use dmr_decrep_shahar.Sort.{sorted}
use dmr_decrep_shahar.Text.{string_leb}

pub record PairRow : Type 0 where
  pub src : Option ℕ
  pub tgt : Option ℕ
  pub row_type : String
  pub addressing : Option String
  pub count : ℕ
  pub max_ts : Option String

pub data EdgeKind : Type 0 where
  group private : EdgeKind

pub record Edge : Type 0 where
  pub src_a : ℕ
  pub src_b : ℕ
  pub weight : ℕ
  pub kind : EdgeKind
  pub tgs : List ℕ

pub record Node : Type 0 where
  pub id : ℕ
  pub total_calls : ℕ
  pub last_seen : Option String
  pub has_gps : Bool

-- a pair of radios as a key
unfoldable pub pair_discrete : Discrete (ℕ × ℕ)
pair_discrete (a, b) (c, d) = elim (ℕ_discrete a c) [
  | no n ↦ no (λ e. n (ap (λ x. x.0) e))
  | yes p ↦ elim (ℕ_discrete b d) [
    | no n ↦ no (λ e. n (ap (λ x. x.1) e))
    | yes q ↦ yes (λ i. (p i, q i))
  ]
]

instance abbrev pub pair_key : Key (ℕ × ℕ)
pair_key = record { dec = pair_discrete }

unfoldable pub is_text : String → String → Bool
is_text x y = ite (String_discrete x y) true false

-- `addressing in _PRIVATE_ADDRESSING` and `addressing in _GROUP_ADDRESSING`
unfoldable pub by_addressing : Option String → Option EdgeKind
unfolding is_text
by_addressing none = none
by_addressing (some x) =
    if is_text x "Individual" || is_text x "Indiv"
    then some private
    else if is_text x "Group"
    then some group
    else none

-- `_classify`
unfoldable pub classify : String → Option String → Option EdgeKind
unfolding is_text by_addressing
classify row_type addressing =
    if is_text row_type "voice_call"
    then some group
    else if is_text row_type "lrrp_request"
    then some private
    else if is_text row_type "preamble_csbk" || is_text row_type "data_header"
    then by_addressing addressing
    else none

module _ {K : Type 0} ⦃k : Key K⦄ where
  -- `counter[x]`, zero if it is missing
  unfoldable pub counted : Dict K ℕ → K → ℕ
  unfolding get
  counted d x = elim (get d x) [ none ↦ 0 | some n ↦ n ]

  -- `counter[x] += n`
  unfoldable pub count_up : Dict K ℕ → K → ℕ → Dict K ℕ
  unfolding counted put
  count_up d x n = put d x (counted d x + n)

-- `radio_last_seen[x] = max(ts, ...)`: ISO texts in their order
unfoldable pub see_text : Dict ℕ String → ℕ → String → Dict ℕ String
unfolding get put string_leb
see_text seen x ts =
    let known : String = elim (get seen x) [ none ↦ "" | some t ↦ t ] in
    if string_leb ts known then seen else put seen x ts

-- the aggregates of the loop over the rows
pub record Totals : Type 0 where
  pub total_calls : Dict ℕ ℕ
  pub last_seen : Dict ℕ String
  pub tg_radio_count : Dict ℕ (Dict ℕ ℕ)
  pub private_pair : Dict (ℕ × ℕ) ℕ

unfoldable pub add_group : Totals → ℕ → ℕ → ℕ → String → Totals
unfolding count_up see_text get put
add_group t src tgt count ts =
    let talkers : Dict ℕ ℕ = elim (get t.tg_radio_count tgt) [ none ↦ [] | some d ↦ d ] in
    record t {
      total_calls = count_up t.total_calls src count;
      last_seen = see_text t.last_seen src ts;
      tg_radio_count = put t.tg_radio_count tgt (count_up talkers src count);
    }

unfoldable pub add_private : Totals → ℕ → ℕ → ℕ → String → Totals
unfolding count_up see_text
add_private t src tgt count ts = record t {
  total_calls = count_up (count_up t.total_calls src count) tgt count;
  last_seen = see_text (see_text t.last_seen src ts) tgt ts;
  private_pair = count_up t.private_pair (src, tgt) count;
}

-- the kind and the two radios of a row that counts
unfoldable pub row_pair : PairRow → Option (EdgeKind × ℕ × ℕ)
unfolding classify
row_pair row = elim row.src [
  | none ↦ none
  | some src ↦ elim row.tgt [
    | none ↦ none
    | some tgt ↦
        if src == 0 || tgt == 0 then none else elim (classify row.row_type row.addressing) [
          | none ↦ none
          | some kind ↦ some (kind, src, tgt)
        ]
  ]
]

unfoldable pub add_pair : Totals → PairRow → Option (EdgeKind × ℕ × ℕ) → Totals
unfolding add_group add_private
add_pair t row none = t
add_pair t row (some (group, src, tgt)) =
    add_group t src tgt row.count (elim row.max_ts [ none ↦ "" | some ts ↦ ts ])
add_pair t row (some (private, src, tgt)) =
    add_private t src tgt row.count (elim row.max_ts [ none ↦ "" | some ts ↦ ts ])

unfoldable pub add_rows : Totals → List PairRow → Totals
unfolding add_pair row_pair
add_rows t [] = t
add_rows t (row ∷ rows) = add_rows (add_pair t row (row_pair row)) rows

abbrev pub no_totals : Totals
no_totals = record { total_calls = []; last_seen = []; tg_radio_count = []; private_pair = [] }
