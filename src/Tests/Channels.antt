-- ===== src/Tests/Channels.antt =====
-- backend/channel_plan.py: a plan of a control channel and a traffic channel.
use dmr_decrep_shahar.Prelude.{
  nat_key, string_key, ℕ, ◌+◌, ◌*◌, ◌≤◌, Bool, true, false, none, some, List, [], ◌∷◌, map, ◌≡◌,
  refl, inl, inr, All, Distinct, String_discrete, contains, String,
}
use dmr_decrep_shahar.Text.{is_space, lstrip, rstrip, strip}
use dmr_decrep_shahar.Channels.{
  Channel, validate_channel, validate_channels, has_duplicate, validate_plan, max_freq, min_freq,
  span_hz, center_half_hz, fits_in_bandwidth,
}
use dmr_decrep_shahar.Channels.Laws.{
  ChannelIsValid, validate_plan-IsValid, fits_in_bandwidth-covers,
}

abbrev channel : String → ℕ → ℕ → Bool → Channel
channel label hz lsn control = record {
  label = label;
  frequency_hz = hz;
  lsn = some lsn;
  control = control;
}

abbrev control : Channel
control = channel "CC" 450_000_000 1 true

abbrev traffic : Channel
traffic = channel "T 1" 450_800_000 2 false

abbrev parsed : List Channel
parsed = channel " CC\n" 450_000_000 1 true ∷ traffic ∷ []

abbrev plan : List Channel
plan = control ∷ traffic ∷ []

plan_loads : validate_plan parsed ≡ some plan
unfolding validate_plan validate_channels validate_channel strip lstrip rstrip is_space
    has_duplicate contains String_discrete
plan_loads = refl

plan_refused : validate_plan (control ∷ channel "CC " 450_800_000 2 false ∷ []) ≡ none
unfolding validate_plan validate_channels validate_channel strip lstrip rstrip is_space
    has_duplicate contains String_discrete
plan_refused = refl

validate_plan-IsValid_example : All ChannelIsValid plan × Distinct (map (λ c. c.label) plan)
validate_plan-IsValid_example = validate_plan-IsValid parsed plan plan_loads

fits_in_bandwidth-covers_example :
    (2 * 450_800_000 + 2 * 10_000 ≤ 900_800_000 + 1_000_000)
    × (900_800_000 + 2 * 10_000 ≤ 2 * 450_800_000 + 1_000_000)
unfolding fits_in_bandwidth center_half_hz span_hz max_freq min_freq
fits_in_bandwidth-covers_example =
    fits_in_bandwidth-covers control traffic [] traffic 1_000_000 10_000 900_800_000 refl refl
      (inr (inl refl))
