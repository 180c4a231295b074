-- ===== src/Parser/Line.antt =====
-- backend/parser.py: `parse_line`. The wall clock is an argument, read where no line has told the time
-- yet. A day has 86,400 seconds.
use Prim.Native.Char.{code}
use dmr_decrep_shahar.Prelude.{
  ℕ, ◌+◌, ◌-◌, ◌*◌, ◌/◌, ◌==◌, String, Bool, true, false, ◌&&◌, Option, none, some, List, [], ◌∷◌,
  ltb, if◌then◌else◌,
}
use dmr_decrep_shahar.Text.{strip, has_text, size}
use dmr_decrep_shahar.Regex.{Regex, Groups, search_in, remove_all}
use dmr_decrep_shahar.Models.{Event, Body, lsn_status, quality}
use dmr_decrep_shahar.Parser.Patterns.{
  ansi_re, sync_re, ch_status_re, slco_site_re, bank_call_re, slco_crc_re,
}
use dmr_decrep_shahar.Parser.Payload.{
  voice_call_re, preamble_csbk_re, data_header_re, ip_mapping_re, lrrp_reqresp_re, lrrp_position_re,
  encryption_re,
}
use dmr_decrep_shahar.Parser.Handlers.{
  DsdLogParser, Handler, int_group, lsn_states, make_channel_status, make_site_info, make_bank_call,
  make_slco_crc, make_voice_call, make_preamble_csbk, make_data_header, make_ip_mapping,
  make_lrrp_position, make_lrrp_request, make_encryption,
}

-- `__init__`
unfoldable pub new_parser : DsdLogParser
new_parser = record { last_timestamp = none; last_lrrp_src = none }

abbrev pub second : ℕ
second = 1_000_000

abbrev pub day : ℕ
day = 86_400_000_000

-- midnight of the day of a time
unfoldable pub midnight : ℕ → ℕ
midnight t = t / day * day

-- the day that a time of day is taken to be on; the times the parser keeps are whole seconds
unfoldable pub base_date : Option ℕ → ℕ → ℕ → ℕ
unfolding midnight
base_date none wall time_of_day = midnight wall
base_date (some prev) wall time_of_day =
    if ltb time_of_day (prev - midnight prev) then midnight prev + day else midnight prev

-- `_update_timestamp`; `none` is the `ValueError` of `time(h, mi, s)`
unfoldable pub update_timestamp : DsdLogParser → ℕ → Groups → Option DsdLogParser
unfolding base_date int_group
update_timestamp p wall g =
    let h = int_group g "h" in
    let mi = int_group g "m" in
    let s = int_group g "s" in
    let time_of_day = (h * 3600 + mi * 60 + s) * second in
    if ltb h 24 && ltb mi 60 && ltb s 60
    then some (record p {
      last_timestamp = some (base_date p.last_timestamp wall time_of_day + time_of_day);
    })
    else none

-- `_now`
unfoldable pub now_of : DsdLogParser → ℕ → ℕ
now_of p wall = elim p.last_timestamp [ none ↦ wall | some t ↦ t ]

-- an event as it leaves the parser, before a channel is stamped on it
unfoldable pub new_event : DsdLogParser → ℕ → String → Body → Event
unfolding now_of
new_event p wall line body = record {
  timestamp = now_of p wall;
  raw_line = line;
  schema_version = 1;
  frequency = none;
  channel_label = none;
  body = body;
}

-- what a line of synchronisation reports besides the time
unfoldable pub sync_error : String → Option String
unfolding has_text
sync_error line =
    if has_text "CSBK (CRC ERR)" line
    then some "CSBK_CRC"
    else if has_text "CSBK (FEC ERR)" line
    then some "CSBK_FEC"
    else if has_text "CACH/Burst FEC ERR" line
    then some "CACH_BURST_FEC"
    else none

-- `self._matchers`
abbrev pub matchers : List (Regex × Handler)
matchers =
    (ch_status_re, make_channel_status)
    ∷ (slco_site_re, make_site_info)
    ∷ (bank_call_re, make_bank_call)
    ∷ (slco_crc_re, make_slco_crc)
    ∷ (voice_call_re, make_voice_call)
    ∷ (preamble_csbk_re, make_preamble_csbk)
    ∷ (data_header_re, make_data_header)
    ∷ (ip_mapping_re, make_ip_mapping)
    ∷ (lrrp_reqresp_re, make_lrrp_request)
    ∷ (lrrp_position_re, make_lrrp_position)
    ∷ (encryption_re, make_encryption)
    ∷ []

-- the first pattern that matches, and its handler
unfoldable pub run_matchers :
    List (Regex × Handler) → DsdLogParser → String → Option (DsdLogParser × Body)
unfolding search_in
run_matchers [] p line = none
run_matchers ((r, handler) ∷ rest) p line = elim (search_in r line) [
  | none ↦ run_matchers rest p line
  | some (g, _) ↦ some (handler p g)
]

-- a line without a time: the patterns in turn, then the states of the logical slots
unfoldable pub body_line : DsdLogParser → String → DsdLogParser × Option Body
unfolding run_matchers lsn_states
body_line p line = elim (run_matchers matchers p line) [
  | some (p', body) ↦ (p', some body)
  | none ↦ elim (lsn_states line) [ none ↦ (p, none) | some states ↦ (p, some (lsn_status states)) ]
]

unfoldable pub event_of : ℕ → String → DsdLogParser × Option Body → DsdLogParser × Option Event
unfolding new_event
event_of wall line (p, none) = (p, none)
event_of wall line (p, some body) = (p, some (new_event p wall line body))

-- a line with a time
unfoldable pub sync_line : DsdLogParser → ℕ → String → Groups → Option (DsdLogParser × Option Event)
unfolding update_timestamp sync_error event_of
sync_line p wall line g = elim (update_timestamp p wall g) [
  | none ↦ none
  | some p' ↦ elim (sync_error line) [
    | none ↦ some (p', none)
    | some error ↦ some (event_of wall line (p', some (quality error)))
  ]
]

-- `line.rstrip("\n")`
unfoldable pub rstrip_line_feeds : String → String
rstrip_line_feeds String.[] = String.[]
rstrip_line_feeds (String.◌∷◌ c s) = elim (rstrip_line_feeds s) [
  | String.[] ↦ if code c == 10 then String.[] else String.◌∷◌ c String.[]
  | String.◌∷◌ d rest ↦ String.◌∷◌ c (String.◌∷◌ d rest)
]

unfoldable pub clean_line : String → String
unfolding remove_all size rstrip_line_feeds
clean_line line = rstrip_line_feeds (remove_all ansi_re (size line) line)

unfoldable pub is_blank : String → Bool
unfolding strip
is_blank line = elim (strip line) [ String.[] ↦ true | String.◌∷◌ c s ↦ false ]

-- `parse_line`; `none` is an exception that leaves it
unfoldable pub parse_line : DsdLogParser → ℕ → String → Option (DsdLogParser × Option Event)
unfolding clean_line is_blank search_in sync_line body_line event_of
parse_line p wall raw =
    let line = clean_line raw in
    if is_blank line then some (p, none) else elim (search_in sync_re line) [
      | some (g, _) ↦ sync_line p wall line g
      | none ↦ some (event_of wall line (body_line p line))
    ]

unfoldable pub with_event : Option Event → List Event → List Event
with_event none events = events
with_event (some ev) events = ev ∷ events

-- lines in turn, each with the wall clock at its arrival, and the events they make
unfoldable pub parse_lines : DsdLogParser → List (ℕ × String) → Option (DsdLogParser × List Event)
unfolding parse_line with_event
parse_lines p [] = some (p, [])
parse_lines p ((wall, raw) ∷ lines) = elim (parse_line p wall raw) [
  | none ↦ none
  | some (p', o) ↦ elim (parse_lines p' lines) [
    | none ↦ none
    | some (p'', events) ↦ some (p'', with_event o events)
  ]
]
