-- ===== src/Channels.antt =====
-- backend/channel_plan.py: the channels of a site. Frequencies are whole numbers of hertz; the middle
-- of the band is given in half hertz, so that it needs no rounding. Reading the JSON file is outside:
-- `validate_plan` takes the channels as parsed.
pub mod Laws
use dmr_decrep_shahar.Prelude.{
  nat_key, string_key, ℕ, ◌+◌, ◌-◌, ◌*◌, ◌≤◌, max, min, String, Bool, true, false, not, ◌&&◌, ◌||◌,
  Option, none, some, List, [], ◌∷◌, map, length, ltb, leb, ◌==◌, ite, contains, filter,
  if◌then◌else◌, String_discrete,
}
use dmr_decrep_shahar.Text.{strip}
use dmr_decrep_shahar.Dict.{Dict, put}

pub record Channel : Type 0 where
  pub label : String
  pub frequency_hz : ℕ
  pub lsn : Option ℕ
  pub control : Bool

abbrev pub ChannelPlan : Type 0
ChannelPlan = List Channel

-- the two field validators; `none` is a `ValueError`
unfoldable pub validate_channel : Channel → Option Channel
unfolding strip
validate_channel c = ite (String_discrete (strip c.label) "") none (
    if leb 1_000 c.frequency_hz && leb c.frequency_hz 2_000_000_000
    then some (record c { label = strip c.label })
    else none)

unfoldable pub validate_channels : List Channel → Option (List Channel)
unfolding validate_channel
validate_channels [] = some []
validate_channels (c ∷ cs) = elim (validate_channel c) [
  | none ↦ none
  | some c' ↦ elim (validate_channels cs) [ none ↦ none | some cs' ↦ some (c' ∷ cs') ]
]

-- `len(labels) != len(set(labels))`
unfoldable pub has_duplicate : List String → Bool
unfolding contains
has_duplicate [] = false
has_duplicate (l ∷ ls) = contains ls l || has_duplicate ls

-- `ChannelPlan.model_validate`
unfoldable pub validate_plan : List Channel → Option ChannelPlan
unfolding validate_channels has_duplicate
validate_plan raw = elim (validate_channels raw) [
  | none ↦ none
  | some cs ↦ if has_duplicate (map (λ c. c.label) cs) then none else some cs
]

-- `max(freqs)` and `min(freqs)` of a list that is not empty, from its first element
unfoldable pub max_freq : ℕ → List Channel → ℕ
max_freq m [] = m
max_freq m (c ∷ cs) = max_freq (max m c.frequency_hz) cs

unfoldable pub min_freq : ℕ → List Channel → ℕ
min_freq m [] = m
min_freq m (c ∷ cs) = min_freq (min m c.frequency_hz) cs

unfoldable pub span_hz : ChannelPlan → ℕ
unfolding max_freq min_freq
span_hz [] = 0
span_hz (c ∷ []) = 0
span_hz (c ∷ cs) = max_freq c.frequency_hz cs - min_freq c.frequency_hz cs

-- twice the middle of the band
unfoldable pub center_half_hz : ChannelPlan → Option ℕ
unfolding max_freq min_freq
center_half_hz [] = none
center_half_hz (c ∷ cs) = some (max_freq c.frequency_hz cs + min_freq c.frequency_hz cs)

unfoldable pub fits_in_bandwidth : ChannelPlan → ℕ → ℕ → Bool
unfolding span_hz
fits_in_bandwidth plan bandwidth_hz guard_hz =
    if ltb (length plan) 2 then true else leb (span_hz plan + 2 * guard_hz) bandwidth_hz

unfoldable pub by_label : ChannelPlan → String → Option Channel
by_label [] label = none
by_label (c ∷ cs) label = ite (String_discrete c.label label) (some c) (by_label cs label)

-- a comprehension over the channels that declare an LSN; a later channel overwrites an earlier one
unfoldable pub lsn_map : {V : Type 0} → (Channel → V) → Dict ℕ V → ChannelPlan → Dict ℕ V
lsn_map f out [] = out
lsn_map f out (c ∷ cs) = lsn_map f (elim c.lsn [ none ↦ out | some lsn ↦ put out lsn (f c) ]) cs

unfoldable pub lsn_to_frequency : ChannelPlan → Dict ℕ ℕ
unfolding lsn_map
lsn_to_frequency = lsn_map (λ c. c.frequency_hz) []

unfoldable pub control_channels : ChannelPlan → List Channel
control_channels = filter (λ c. c.control)
