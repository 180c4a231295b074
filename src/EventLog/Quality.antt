-- ===== src/EventLog/Quality.antt =====
-- backend/event_log.py: the ratios of errors, `compute_quality_ratios` and `quality_ratios_over_window`. A
-- rate is kept as its two counts: a comparison with a threshold is one of whole numbers.
use dmr_decrep_shahar.Prelude.{
  nat_key, string_key, ℕ, ◌+◌, ◌*◌, String, Bool, Option, none, some, List, [], ◌∷◌, ltb, ◌==◌,
  if◌then◌else◌,
}
use dmr_decrep_shahar.Dict.{Dict}
use dmr_decrep_shahar.Network.{counted}
use dmr_decrep_shahar.EventIndex.{EventIndex}
use dmr_decrep_shahar.EventIndex.Queries.{count_by_type, count_quality_by_kind, time_bounds}

pub record Ratio : Type 0 where
  pub errors : ℕ
  pub decodes : ℕ

-- `rate < percent / 100`; the rate of nothing is zero
unfoldable pub rate_below : Ratio → ℕ → Bool
rate_below r percent =
    if r.errors + r.decodes == 0
    then ltb 0 percent
    else ltb (r.errors * 100) (percent * (r.errors + r.decodes))

-- `_VERDICT_THRESHOLDS`, in percent
abbrev pub verdict_thresholds : List (ℕ × String)
verdict_thresholds =
    (1, "excellent") ∷ (3, "good") ∷ (10, "marginal") ∷ (20, "poor") ∷ (101, "unusable") ∷ []

unfoldable pub verdict_from : List (ℕ × String) → Ratio → String
unfolding rate_below
verdict_from [] r = "unusable"
verdict_from ((percent, name) ∷ more) r = if rate_below r percent then name else verdict_from more r

-- `_verdict_for`
unfoldable pub verdict_for : Ratio → String
unfolding verdict_from
verdict_for = verdict_from verdict_thresholds

pub record QualityRatios : Type 0 where
  pub overall : Ratio
  pub verdict : String
  pub csbk_crc : Ratio
  pub csbk_fec : Ratio
  pub cach_fec : Ratio
  pub slco_crc : Ratio

-- `compute_quality_ratios`
unfoldable pub compute_quality_ratios : Dict String ℕ → Dict String ℕ → QualityRatios
unfolding counted verdict_for
compute_quality_ratios by_type by_kind =
    let csbk_ok =
      counted by_type "site_info"
      + counted by_type "channel_status"
      + counted by_type "preamble_csbk"
      + counted by_type "bank_call" in
    let cach_ok = counted by_type "lsn_status" in
    let voice_ok = counted by_type "voice_call" in
    let crc = counted by_kind "CSBK_CRC" in
    let slco = counted by_kind "SLCO_CRC" in
    let whole : Ratio = record { errors = crc + slco; decodes = csbk_ok + voice_ok } in
    record {
      overall = whole;
      verdict = verdict_for whole;
      csbk_crc = record { errors = crc; decodes = csbk_ok };
      csbk_fec = record { errors = counted by_kind "CSBK_FEC"; decodes = csbk_ok };
      cach_fec = record { errors = counted by_kind "CACH_BURST_FEC"; decodes = cach_ok };
      slco_crc = record { errors = slco; decodes = voice_ok };
    }

pub record WindowRatios : Type 0 where
  pub ratios : QualityRatios
  pub window_start : Option ℕ
  pub window_end : Option ℕ
  pub sample_events : ℕ

unfoldable pub sum_counts : {K : Type 0} → Dict K ℕ → ℕ
sum_counts [] = 0
sum_counts ((k, n) ∷ d) = n + sum_counts d

-- `quality_ratios_over_window` of an index that has rows, from the time that the window begins
unfoldable pub quality_ratios_over_window : EventIndex → ℕ → WindowRatios
unfolding compute_quality_ratios count_by_type count_quality_by_kind time_bounds sum_counts
quality_ratios_over_window x since =
    let by_type = count_by_type x (some since) none in
    let bounds = time_bounds x (some since) in
    record {
      ratios = compute_quality_ratios by_type (count_quality_by_kind x (some since));
      window_start = bounds.0;
      window_end = bounds.1;
      sample_events = sum_counts by_type;
    }
