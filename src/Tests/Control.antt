-- ===== src/Tests/Control.antt =====
-- backend/rf/control.py: a change to a software radio, with numbers as the operator writes them.
use dmr_decrep_shahar.Prelude.{
  pos, String_discrete, true, false, none, some, [], ◌∷◌, ◌≡◌, refl, arith, ite,
}
use dmr_decrep_shahar.Text.{is_space, lstrip, rstrip, strip, size, take_chars}
use dmr_decrep_shahar.EventLog.Files.{last_code}
use dmr_decrep_shahar.Control.{
  Formats, pulse, soapy, RfRuntimeConfig, RfController, new_controller, Tuning, normalize_frequency,
  build_soapy_input, build_dsd_command, given, backend_named, new_frequency, new_bandwidth,
  is_unset, is_tuned, tune, persist, set_tuning,
}
use dmr_decrep_shahar.Control.Valid.{IsValid, set_tuning-IsValid}

-- some of what Python reads and writes
abbrev formats : Formats
formats = record {
  float_of = λ s.
      ite (String_discrete s "168500000") (some 168_500_000_000_000)
        (ite (String_discrete s "168.5") (some 168_500_000) none);
  mhz_text = λ n. "168.5";
  gain_text = λ n. "22";
  int_text = λ n. "24";
}

abbrev config : RfRuntimeConfig
config = record {
  rf_backend = pulse;
  input = "pulse:dmr_capture.monitor";
  frequency = none;
  sdr_driver = "sdrplay";
  sdr_device_args = "";
  gain = pos 22_000_000;
  ppm = pos 24;
  bandwidth_khz = 24;
  live_enabled = true;
}

abbrev tuning : Tuning
tuning = record {
  rf_backend = some "soapy";
  input = none;
  frequency = some " 168500000 ";
  sdr_driver = none;
  sdr_device_args = none;
  gain = none;
  ppm = none;
  bandwidth_khz = none;
}

abbrev tuned : RfController
tuned = record {
  config = record config { rf_backend = soapy; frequency = some "168.5M" };
  retune_event = true;
  live_toggle_event = false;
  last_error = true;
}

tunes : set_tuning formats false (new_controller config) tuning ≡ some tuned
unfolding new_controller is_space lstrip rstrip strip size take_chars last_code String_discrete
    normalize_frequency given backend_named new_frequency new_bandwidth is_unset is_tuned tune
    persist set_tuning
tunes = refl

set_tuning-IsValid_example :
    IsValid tuned.config × (tuned.retune_event ≡ true) × (tuned.config.live_enabled ≡ true)
unfolding new_controller
set_tuning-IsValid_example =
    set_tuning-IsValid formats false (new_controller config) tuning tuned (omega arith) tunes

-- without a frequency the software radio is refused
refused :
    set_tuning formats true (new_controller config) (record tuning { frequency = none }) ≡ none
unfolding new_controller is_space lstrip rstrip strip size take_chars last_code String_discrete
    normalize_frequency given backend_named new_frequency new_bandwidth is_unset is_tuned tune
    persist set_tuning
refused = refl

command :
    build_dsd_command formats "dsd-fme" "calls" tuned.config
    ≡ some (
        "dsd-fme" ∷ "-fs" ∷ "-i" ∷ "soapy:driver=sdrplay:168.5M:22:24:24" ∷ "-7" ∷ "calls" ∷ "-P"
        ∷ [])
unfolding is_space lstrip rstrip strip size take_chars last_code String_discrete normalize_frequency
    build_soapy_input build_dsd_command
command = refl
