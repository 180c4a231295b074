-- ===== src/Control/Valid.antt =====
-- backend/rf/control.py: what a change of the tuning keeps.
use dmr_decrep_shahar.Prelude.{
  ℕ, ℤ, ◌<◌, Bool, true, false, Option, none, some, ◌≡◌, refl, sym, subst, arith, inl, inr,
  Option-cases, Bool-cases, if◌then◌else◌, pos, negsuc,
}
use dmr_decrep_shahar.Control.{
  Formats, RfRuntimeConfig, RfController, Tuning, backend_named, new_frequency, new_bandwidth,
  is_tuned, given, tune, set_tuning, persist,
}

-- a configuration that the decoder can be started with
abbrev pub IsValid : RfRuntimeConfig → Type 0
IsValid c = (0 < c.bandwidth_khz) × (is_tuned c ≡ true)

new_bandwidth-positive : (o : Option ℤ) (old n : ℕ) → 0 < old → new_bandwidth o old ≡ some n → 0 < n
unfolding new_bandwidth
new_bandwidth-positive none old n lt h = let e : old ≡ n = ground arith in omega (arith, e, lt)
new_bandwidth-positive (some (pos m)) old n lt h = ground arith
new_bandwidth-positive (some (negsuc m)) old n lt h = cc

tune-IsValid :
    (f : Formats) (c : RfRuntimeConfig) (t : Tuning) (c' : RfRuntimeConfig)
    → 0 < c.bandwidth_khz
    → tune f c t ≡ some c'
    → IsValid c' × (c'.live_enabled ≡ c.live_enabled)
unfolding tune
tune-IsValid f c t c' lt h = elim (Option-cases (backend_named t.rf_backend c.rf_backend)) [
  | inl e ↦ cc (rw (e, tune) at h)
  | inr (b, e) ↦ elim (Option-cases (new_frequency f t.frequency c.frequency)) [
    | inl e' ↦ cc (rw (e, e', tune) at h)
    | inr (freq, e') ↦ elim (Option-cases (new_bandwidth t.bandwidth_khz c.bandwidth_khz)) [
      | inl e'' ↦ cc (rw (e, e', e'', tune) at h)
      | inr (n, e'') ↦
          let new : RfRuntimeConfig = record {
            rf_backend = b;
            input = given t.input c.input;
            frequency = freq;
            sdr_driver = given t.sdr_driver c.sdr_driver;
            sdr_device_args = given t.sdr_device_args c.sdr_device_args;
            gain = given t.gain c.gain;
            ppm = given t.ppm c.ppm;
            bandwidth_khz = n;
            live_enabled = c.live_enabled;
          } in
          let h' : (if is_tuned new then some new else none) ≡ some c' =
            rw (e, e', e'', tune) at h in
          elim (Bool-cases (is_tuned new)) [
            | inl d ↦
                let same : new ≡ c' = ground (arith, h') in
                subst (λ x. IsValid x × (x.live_enabled ≡ c.live_enabled)) same
                  ((new_bandwidth-positive t.bandwidth_khz c.bandwidth_khz n lt e'', d), refl)
            | inr d ↦ cc (rw d at h')
          ]
    ]
  ]
]

persist-config : (stores : Bool) (r : RfController) → (persist stores r).config ≡ r.config
unfolding persist
persist-config true r = refl
persist-config false r = refl

-- A change of the tuning that is accepted, of a configuration whose bandwidth is positive, leaves one whose
-- bandwidth is positive and which has a frequency if it wants one, asks for a retune, and leaves
-- the switch of the live capture as it was, whether or not the new configuration can be stored.
pub set_tuning-IsValid :
    (f : Formats) (stores : Bool) (r : RfController) (t : Tuning) (r' : RfController)
    → 0 < r.config.bandwidth_khz
    → set_tuning f stores r t ≡ some r'
    → IsValid r'.config
      × (r'.retune_event ≡ true)
      × (r'.config.live_enabled ≡ r.config.live_enabled)
unfolding set_tuning
set_tuning-IsValid f stores r t r' lt h = elim (Option-cases (tune f r.config t)) [
  | inl e ↦ cc (rw (e, set_tuning) at h)
  | inr (c, e) ↦
      let after : RfController = record (persist stores (record r { config = c })) {
        retune_event = true;
      } in
      let same : after ≡ r' = ground (arith, rw (e, set_tuning) at h) in
      let (valid, live) = tune-IsValid f r.config t c lt e in
      let config : after.config ≡ c = persist-config stores (record r { config = c }) in
      subst
        (λ (x : RfController).
          IsValid x.config
          × (x.retune_event ≡ true)
          × (x.config.live_enabled ≡ r.config.live_enabled))
        same
        (subst (λ x. IsValid x × (true ≡ true) × (x.live_enabled ≡ r.config.live_enabled))
          (sym config) (valid, refl, live))
]
