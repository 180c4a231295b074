-- ===== src/Control.antt =====
-- backend/dsd_command.py and backend/rf/control.py: the command that starts the decoder, and the tuning
-- that the operator changes while it runs. A frequency is read to six decimal places, a gain is in
-- millionths. How numbers are read and written is a parameter.
pub mod Valid
use Prim.Native.String.{◌++◌}
use dmr_decrep_shahar.Prelude.{
  string_key, ℕ, ◌+◌, ◌-◌, ◌*◌, ◌/◌, ℤ, pos, negsuc, String, String_discrete, Bool, true, false,
  not, ◌&&◌, ◌||◌, Option, none, some, List, [], ◌∷◌, ltb, leb, ◌==◌, ite, if◌then◌else◌,
}
use dmr_decrep_shahar.Text.{strip, size, take_chars}
use dmr_decrep_shahar.EventLog.Files.{last_code}

-- Python's reading and writing of numbers: `float_of` is `float`, in millionths, with nothing for what is
-- no number or is below zero; `mhz_text` is `f"{mhz:g}"` of millionths, `gain_text` the same of a gain,
-- and `int_text` is `str`
pub record Formats : Type 0 where
  pub float_of : String → Option ℕ
  pub mhz_text : ℕ → String
  pub gain_text : ℤ → String
  pub int_text : ℤ → String

-- `normalize_frequency`; `none` is a `ValueError`
unfoldable pub normalize_frequency : Formats → String → Option String
unfolding strip size take_chars last_code
normalize_frequency f value =
    let s = strip value in
    let in_mhz = last_code s == b'M' || last_code s == b'm' in
    let text = if in_mhz then take_chars (size s - 1) s else s in
    if size s == 0 then none else elim (f.float_of text) [
      | none ↦ none
      | some n ↦
          let mhz = if in_mhz then n else if leb 10_000_000_000 n then n / 1_000_000 else n in
          if leb 1_000 mhz && leb mhz 3_000_000_000 then some (f.mhz_text mhz ++ "M") else none
    ]

pub data RfBackend : Type 0 where
  pulse soapy : RfBackend

pub record RfRuntimeConfig : Type 0 where
  pub rf_backend : RfBackend
  pub input : String
  pub frequency : Option String
  pub sdr_driver : String
  pub sdr_device_args : String
  pub gain : ℤ
  pub ppm : ℤ
  pub bandwidth_khz : ℕ
  pub live_enabled : Bool

-- `build_soapy_input`; `none` is a `ValueError`, also where there is no frequency
unfoldable pub build_soapy_input : Formats → RfRuntimeConfig → Option String
unfolding normalize_frequency
build_soapy_input f c =
    let device =
      "driver="
      ++ c.sdr_driver
      ++ ite (String_discrete c.sdr_device_args "") "" ("," ++ c.sdr_device_args) in
    elim c.frequency [
      | none ↦ none
      | some frequency ↦ elim (normalize_frequency f frequency) [
        | none ↦ none
        | some freq ↦ some (
            "soapy:"
            ++ device
            ++ ":"
            ++ freq
            ++ ":"
            ++ f.gain_text c.gain
            ++ ":"
            ++ f.int_text c.ppm
            ++ ":"
            ++ f.int_text (pos c.bandwidth_khz))
      ]
    ]

-- `build_dsd_command`, of the configuration that `apply_to_args` puts in the arguments
unfoldable pub build_dsd_command :
    Formats → String → String → RfRuntimeConfig → Option (List String)
unfolding build_soapy_input
build_dsd_command f dsd_bin calls_dir c =
    let input_str : Option String = elim c.rf_backend [
      | soapy ↦ build_soapy_input f c
      | pulse ↦ some c.input
    ] in
    elim input_str [
      | none ↦ none
      | some input ↦ some (dsd_bin ∷ "-fs" ∷ "-i" ∷ input ∷ "-7" ∷ calls_dir ∷ "-P" ∷ [])
    ]

-- `last_error` is whether the last configuration could not be stored
pub record RfController : Type 0 where
  pub config : RfRuntimeConfig
  pub retune_event : Bool
  pub live_toggle_event : Bool
  pub last_error : Bool

unfoldable pub new_controller : RfRuntimeConfig → RfController
new_controller config = record {
  config = config;
  retune_event = false;
  live_toggle_event = false;
  last_error = false;
}

-- the arguments of `set_tuning`
pub record Tuning : Type 0 where
  pub rf_backend : Option String
  pub input : Option String
  pub frequency : Option String
  pub sdr_driver : Option String
  pub sdr_device_args : Option String
  pub gain : Option ℤ
  pub ppm : Option ℤ
  pub bandwidth_khz : Option ℤ

-- `x if x is not None else y`
unfoldable pub given {ℓ} : {A : Type ℓ} → Option A → A → A
given none y = y
given (some x) y = x

-- the backend of a name; `none` is a `ValueError`
unfoldable pub backend_named : Option String → RfBackend → Option RfBackend
backend_named none b = some b
backend_named (some name) b =
    ite (String_discrete name "pulse") (some pulse)
      (ite (String_discrete name "soapy") (some soapy) none)

unfoldable pub new_frequency : Formats → Option String → Option String → Option (Option String)
unfolding normalize_frequency
new_frequency f none old = some old
new_frequency f (some value) old = elim (normalize_frequency f value) [
  | none ↦ none
  | some freq ↦ some (some freq)
]

unfoldable pub new_bandwidth : Option ℤ → ℕ → Option ℕ
new_bandwidth none old = some old
new_bandwidth (some (pos n)) old = if n == 0 then none else some n
new_bandwidth (some (negsuc n)) old = none

-- `not new.frequency`
unfoldable pub is_unset : Option String → Bool
unfolding size
is_unset none = true
is_unset (some s) = size s == 0

-- the demand of the soapy backend for a frequency
unfoldable pub is_tuned : RfRuntimeConfig → Bool
unfolding is_unset
is_tuned c = elim c.rf_backend [ pulse ↦ true | soapy ↦ not (is_unset c.frequency) ]

-- the new configuration of `set_tuning`
unfoldable pub tune : Formats → RfRuntimeConfig → Tuning → Option RfRuntimeConfig
unfolding given backend_named new_frequency new_bandwidth is_tuned
tune f c t = elim (backend_named t.rf_backend c.rf_backend) [
  | none ↦ none
  | some backend ↦ elim (new_frequency f t.frequency c.frequency) [
    | none ↦ none
    | some frequency ↦ elim (new_bandwidth t.bandwidth_khz c.bandwidth_khz) [
      | none ↦ none
      | some bandwidth ↦
          let new : RfRuntimeConfig = record {
            rf_backend = backend;
            input = given t.input c.input;
            frequency = frequency;
            sdr_driver = given t.sdr_driver c.sdr_driver;
            sdr_device_args = given t.sdr_device_args c.sdr_device_args;
            gain = given t.gain c.gain;
            ppm = given t.ppm c.ppm;
            bandwidth_khz = bandwidth;
            live_enabled = c.live_enabled;
          } in
          if is_tuned new then some new else none
    ]
  ]
]

-- `_persist`: an error that was reported stays
unfoldable pub persist : Bool → RfController → RfController
persist stores r = if stores then r else record r { last_error = true }

-- `set_tuning`; `none` is a `ValueError`, which leaves the controller as it was
unfoldable pub set_tuning : Formats → Bool → RfController → Tuning → Option RfController
unfolding tune persist
set_tuning f stores r t = elim (tune f r.config t) [
  | none ↦ none
  | some new ↦ some (record (persist stores (record r { config = new })) { retune_event = true })
]

unfoldable pub same_flag : Bool → Bool → Bool
same_flag true b = b
same_flag false b = not b

-- `set_live_enabled`
unfoldable pub set_live_enabled : Bool → RfController → Bool → RfController
unfolding same_flag persist
set_live_enabled stores r enabled =
    if same_flag r.config.live_enabled enabled
    then r
    else record (persist stores
        (record r { config = record r.config { live_enabled = enabled } })) {
          live_toggle_event = true;
        }
