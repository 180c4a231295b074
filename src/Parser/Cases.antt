-- ===== src/Parser/Cases.antt =====
-- backend/parser.py: the outcomes of `parse_line`, and what the handlers do to the parser's state.
use dmr_decrep_shahar.Prelude.{
  ℕ, ◌+◌, ◌-◌, ◌*◌, ◌/◌, ◌≤◌, String, ◌&&◌, Option, none, some, List, [], ◌∷◌, ◌≡◌, refl, ap, subst,
  arith, inl, inr, Bool-cases, Option-cases, All, ltb, ltb→ge, ite, String_discrete,
}
use dmr_decrep_shahar.Regex.{Regex, Groups, search_in, group_text}
use dmr_decrep_shahar.Models.{Event, Body, ip_mapping, lrrp_position, quality}
use dmr_decrep_shahar.Parser.Patterns.{sync_re}
use dmr_decrep_shahar.Parser.Handlers.{
  DsdLogParser, Handler, int_group, make_channel_status, make_site_info, make_bank_call,
  make_slco_crc, make_voice_call, make_preamble_csbk, make_data_header, make_ip_mapping,
  make_lrrp_position, make_lrrp_request, make_encryption, lsn_states,
}
use dmr_decrep_shahar.Parser.Line.{
  matchers, run_matchers, body_line, event_of, new_event, now_of, sync_error, sync_line,
  update_timestamp, clean_line, is_blank, parse_line, base_date, midnight, day, second,
}

-- the binding of a radio to the next position, after an event
abbrev pub bind_after : Option ℕ → Body → Option ℕ
bind_after bound (ip_mapping m) = ite (String_discrete m.role "SRC") (some m.radio_id) bound
bind_after bound (lrrp_position q) = none
bind_after bound body = bound

-- a position carries the radio that is bound
abbrev pub Carries : Option ℕ → Body → Type 0
Carries bound (lrrp_position q) = q.src ≡ bound
Carries bound body = Unit {0}

-- what each handler makes of the state
abbrev pub Handles : DsdLogParser → DsdLogParser × Body → Type 0
Handles p out =
    (out.0.last_timestamp ≡ p.last_timestamp)
    × (out.0.last_lrrp_src ≡ bind_after p.last_lrrp_src out.1)
    × Carries p.last_lrrp_src out.1

make_ip_mapping-Handles : (p : DsdLogParser) (g : Groups) → Handles p (make_ip_mapping p g)
unfolding make_ip_mapping
make_ip_mapping-Handles p g = elim (String_discrete (group_text g "role") "SRC") [
  | yes e ↦ ground arith
  | no n ↦ ground arith
]

make_bank_call-Handles : (p : DsdLogParser) (g : Groups) → Handles p (make_bank_call p g)
unfolding make_bank_call
make_bank_call-Handles p g = (refl, refl, tt)

make_data_header-Handles : (p : DsdLogParser) (g : Groups) → Handles p (make_data_header p g)
unfolding make_data_header
make_data_header-Handles p g = (refl, refl, tt)

matchers-Handles : All (λ m. (p : DsdLogParser) (g : Groups) → Handles p (m.1 p g)) matchers
unfolding make_channel_status make_site_info make_slco_crc make_voice_call make_preamble_csbk
    make_lrrp_position make_lrrp_request make_encryption
matchers-Handles = (
  (λ p g. (refl, refl, tt)),
  (
    (λ p g. (refl, refl, tt)),
    (
      make_bank_call-Handles,
      (
        (λ p g. (refl, refl, tt)),
        (
          (λ p g. (refl, refl, tt)),
          (
            (λ p g. (refl, refl, tt)),
            (
              make_data_header-Handles,
              (
                make_ip_mapping-Handles,
                (
                  (λ p g. (refl, refl, tt)),
                  ((λ p g. (refl, refl, refl)), ((λ p g. (refl, refl, tt)), tt)),
                ),
              ),
            ),
          ),
        ),
      ),
    ),
  ),
)

run_matchers-Handles :
    (ms : List (Regex × Handler)) (p : DsdLogParser) (line : String) (out : DsdLogParser × Body)
    → All (λ m. (p : DsdLogParser) (g : Groups) → Handles p (m.1 p g)) ms
    → run_matchers ms p line ≡ some out
    → Handles p out
unfolding run_matchers
run_matchers-Handles [] p line out a h = cc
run_matchers-Handles ((r, handler) ∷ rest) p line out a h = elim (Option-cases (search_in r line)) [
  | inl e ↦ run_matchers-Handles rest p line out a.1 (rw (e, run_matchers) at h)
  | inr ((g, s), e) ↦
      let found : handler p g ≡ out = ground arith in subst (Handles p) found (a.0 p g)
]

-- a line that is read: the state after it, and the event if there is one
abbrev pub Reads : DsdLogParser → DsdLogParser × Option Body → Type 0
Reads p (p', none) = p' ≡ p
Reads p (p', some body) = Handles p (p', body)

pub body_line-Reads : (p : DsdLogParser) (line : String) → Reads p (body_line p line)
unfolding body_line
body_line-Reads p line = elim (Option-cases (run_matchers matchers p line)) [
  | inr ((p', body), e) ↦
      rw (e, body_line) (run_matchers-Handles matchers p line (p', body) matchers-Handles e)
  | inl e ↦ elim (Option-cases (lsn_states line)) [
    | inl n ↦ rw (e, n, body_line) refl
    | inr (states, n) ↦ rw (e, n, body_line) (refl, refl, tt)
  ]
]

-- time does not go back
abbrev pub Later : Option ℕ → Option ℕ → Type 0
Later none after = Unit {0}
Later (some t) after = (u : ℕ) × (after ≡ some u) × (t ≤ u)

Later-refl : (o : Option ℕ) → Later o o
Later-refl none = tt
Later-refl (some t) = (t, refl, omega arith)

-- what a line does: to the time, to the binding, and what it reports
abbrev pub Reports : DsdLogParser → ℕ → String → DsdLogParser × Option Event → Type 0
Reports p wall line (p', none) =
    Later p.last_timestamp p'.last_timestamp × (p'.last_lrrp_src ≡ p.last_lrrp_src)
Reports p wall line (p', some ev) =
    Later p.last_timestamp p'.last_timestamp
    × (p'.last_lrrp_src ≡ bind_after p.last_lrrp_src ev.body)
    × Carries p.last_lrrp_src ev.body
    × (ev.timestamp ≡ now_of p' wall)
    × (ev.raw_line ≡ line)

event_of-Reports :
    (p : DsdLogParser) (wall : ℕ) (line : String) (out : DsdLogParser × Option Body)
    → Reads p out
    → Reports p wall line (event_of wall line out)
unfolding event_of new_event
event_of-Reports p wall line (p', none) h = (
  rw (ap (λ (q : DsdLogParser). q.last_timestamp) h) (Later-refl p.last_timestamp),
  ap (λ q. q.last_lrrp_src) h,
)
event_of-Reports p wall line (p', some body) (same, bound, carries) =
    (rw same (Later-refl p.last_timestamp), bound, carries, refl, refl)

base_date-Later :
    (prev : Option ℕ) (wall time_of_day : ℕ)
    → Later prev (some (base_date prev wall time_of_day + time_of_day))
unfolding base_date midnight
base_date-Later none wall time_of_day = tt
base_date-Later (some t) wall time_of_day =
    elim (Bool-cases (ltb time_of_day (t - t / day * day))) [
      | inl b ↦ rw b (t / day * day + day + time_of_day, refl, omega arith)
      | inr b ↦ rw b (
        t / day * day + time_of_day,
        refl,
        omega (arith, ltb→ge time_of_day (t - t / day * day) b),
      )
    ]

update_timestamp-Later :
    (p : DsdLogParser) (wall : ℕ) (g : Groups) (p' : DsdLogParser)
    → update_timestamp p wall g ≡ some p'
    → Later p.last_timestamp p'.last_timestamp × (p'.last_lrrp_src ≡ p.last_lrrp_src)
unfolding update_timestamp
update_timestamp-Later p wall g p' h =
    let h' = int_group g "h" in
    let mi = int_group g "m" in
    let s = int_group g "s" in
    let time_of_day = (h' * 3600 + mi * 60 + s) * second in
    let moved = record p {
      last_timestamp = some (base_date p.last_timestamp wall time_of_day + time_of_day);
    } in
    elim (Bool-cases (ltb h' 24 && ltb mi 60 && ltb s 60)) [
      | inl b ↦
          let found : moved ≡ p' = ground arith in
          rw (← found) (base_date-Later p.last_timestamp wall time_of_day, refl)
      | inr b ↦ cc (rw (b, update_timestamp) at h)
    ]

sync_line-Reports :
    (p : DsdLogParser) (wall : ℕ) (line : String) (g : Groups) (out : DsdLogParser × Option Event)
    → sync_line p wall line g ≡ some out
    → Reports p wall line out
unfolding sync_line event_of new_event
sync_line-Reports p wall line g out h = elim (Option-cases (update_timestamp p wall g)) [
  | inl e ↦ cc (rw (e, sync_line) at h)
  | inr (p', e) ↦
      let (later, same) = update_timestamp-Later p wall g p' e in
      elim (Option-cases (sync_error line)) [
        | inl n ↦
            let found : (p', none) ≡ out = ground arith in
            subst (Reports p wall line) found (later, same)
        | inr (error, n) ↦
            let found : event_of wall line (p', some (quality error)) ≡ out = ground arith in
            subst (Reports p wall line) found (later, same, tt, refl, refl)
      ]
]

-- each branch of `parse_line` that returns
pub parse_line-Reports :
    (p : DsdLogParser) (wall : ℕ) (raw : String) (out : DsdLogParser × Option Event)
    → parse_line p wall raw ≡ some out
    → Reports p wall (clean_line raw) out
unfolding parse_line
parse_line-Reports p wall raw out h =
    let line = clean_line raw in
    elim (Bool-cases (is_blank line)) [
      | inl b ↦
          let found : (p, none) ≡ out = ground arith in
          subst (Reports p wall line) found (Later-refl p.last_timestamp, refl)
      | inr b ↦ elim (Option-cases (search_in sync_re line)) [
        | inr ((g, s), e) ↦
            let found : sync_line p wall line g ≡ some out = ground arith in
            sync_line-Reports p wall line g out found
        | inl e ↦
            let found : event_of wall line (body_line p line) ≡ out = ground arith in
            subst (Reports p wall line) found
              (event_of-Reports p wall line (body_line p line) (body_line-Reads p line))
      ]
    ]
