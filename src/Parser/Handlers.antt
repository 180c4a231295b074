-- ===== src/Parser/Handlers.antt =====
-- backend/parser.py: `DSDLogParser`'s state, and what its handlers make of the groups of a match. A
-- coordinate is read to five decimal places, as the log has them. A talkgroup in a status line is a
-- number if it is of digits, without a sign or underscores.
use Prim.Native.Nat.{zero, suc}
use Prim.Native.Char.{code}
use dmr_decrep_shahar.Prelude.{
  nat_key, string_key, ℕ, ◌+◌, ◌-◌, ◌*◌, String, Bool, true, false, ◌&&◌, Option, none, some, List,
  map, ℤ, pos, negsuc, length, ltb, ◌==◌, if◌then◌else◌, ite, String_discrete,
}
use dmr_decrep_shahar.Dict.{get, from_entries, put_all}
use dmr_decrep_shahar.Text.{strip, lower, upper, capitalize, number, all_digits, has_text, size}
use dmr_decrep_shahar.Regex.{Groups, group_text, find_all, remove_all}
use dmr_decrep_shahar.Models.{
  Body, LsnState, channel_status, site_info, bank_call, quality, voice_call, preamble_csbk,
  data_header, ip_mapping, lrrp_position, lrrp_request, encryption,
}
use dmr_decrep_shahar.Parser.Patterns.{bank_pair_re, lsn_pair_re}
use dmr_decrep_shahar.Parser.Payload.{response_re}

pub record DsdLogParser : Type 0 where
  pub last_timestamp : Option ℕ
  pub last_lrrp_src : Option ℕ

-- what a handler returns: the event without what all events have, and the state after it
abbrev pub Handler : Type 0
Handler = DsdLogParser → Groups → DsdLogParser × Body

-- `int(m.group(name))`
unfoldable pub int_group : Groups → String → ℕ
unfolding group_text number
int_group g name = number (group_text g name)

-- `int(x) if x else None`
unfoldable pub optional_int : Groups → String → Option ℕ
unfolding get number
optional_int g name = elim (get g name) [
  | none ↦ none
  | some String.[] ↦ none
  | some (String.◌∷◌ c s) ↦ some (number (String.◌∷◌ c s))
]

-- `bool(m.group(name))`
unfoldable pub has_group : Groups → String → Bool
unfolding get
has_group g name = elim (get g name) [
  | none ↦ false
  | some String.[] ↦ false
  | some (String.◌∷◌ c s) ↦ true
]

unfoldable pub make_channel_status : Handler
unfolding int_group group_text capitalize
make_channel_status p g = (
  p,
  channel_status (record {
    fl = int_group g "fl";
    ts = int_group g "ts";
    rs = int_group g "rs";
    rest_lsn = int_group g "rest_lsn";
    block_type = capitalize (group_text g "block");
  }),
)

unfoldable pub make_site_info : Handler
unfolding int_group group_text
make_site_info p g = (
  p,
  site_info (record {
    site = int_group g "site";
    rest_lsn = int_group g "rest_lsn";
    rs = group_text g "rs";
  }),
)

unfoldable pub make_bank_call : Handler
unfolding int_group group_text find_all put_all capitalize upper strip size
make_bank_call p g =
    let pairs = find_all bank_pair_re (size (group_text g "rest")) (group_text g "rest") in
    (
      p,
      bank_call (record {
        bank = capitalize (group_text g "bank");
        flag_byte = upper (group_text g "flag");
        description = strip (group_text g "desc");
        lsn_to_tg = from_entries (map (λ pair. (int_group pair "lsn", int_group pair "tg")) pairs);
      }),
    )

unfoldable pub make_slco_crc : Handler
make_slco_crc p g = (p, quality "SLCO_CRC")

unfoldable pub lsn_state : Groups → LsnState
unfolding int_group group_text strip lower all_digits number
lsn_state pair =
    let lsn = int_group pair "lsn" in
    let v = strip (group_text pair "value") in
    ite (String_discrete (lower v) "idle") (record { lsn = lsn; state = "Idle"; tg = none })
      (ite (String_discrete (lower v) "rest") (record { lsn = lsn; state = "Rest"; tg = none })
        (if all_digits v
          then record { lsn = lsn; state = "Active"; tg = some (number v) }
          else record { lsn = lsn; state = v; tg = none }))

-- `_try_lsn_status`, up to the event
unfoldable pub lsn_states : String → Option (List LsnState)
unfolding has_text find_all lsn_state size
lsn_states line =
    let pairs = find_all lsn_pair_re (size line) line in
    if has_text "Bank" line && has_text "Call" line
    then none
    else if ltb (length pairs) 2
    then none
    else some (map lsn_state pairs)

unfoldable pub make_voice_call : Handler
unfolding int_group optional_int has_group
make_voice_call p g = (
  p,
  voice_call (record {
    slot = int_group g "slot";
    src = int_group g "src";
    tgt = int_group g "tgt";
    is_cap_plus = has_group g "capplus";
    is_txi = has_group g "txi";
    rest_lsn = optional_int g "rest_lsn";
  }),
)

unfoldable pub make_preamble_csbk : Handler
unfolding int_group optional_int group_text
make_preamble_csbk p g = (
  p,
  preamble_csbk (record {
    addressing = group_text g "addr";
    kind = group_text g "kind";
    src = int_group g "src";
    tgt = int_group g "tgt";
    rest_lsn = optional_int g "rest_lsn";
  }),
)

unfoldable pub make_data_header : Handler
unfolding int_group group_text has_text remove_all strip size
make_data_header p g =
    let delivery_raw = strip (group_text g "delivery") in
    (
      p,
      data_header (record {
        slot = int_group g "slot";
        addressing = group_text g "addr";
        delivery = strip (remove_all response_re (size delivery_raw) delivery_raw);
        response_requested = has_text "Response Requested" delivery_raw;
        src = int_group g "src";
        tgt = int_group g "tgt";
      }),
    )

-- a line on the source of a packet binds its radio to the next position
unfoldable pub make_ip_mapping : Handler
unfolding int_group group_text
make_ip_mapping p g =
    let radio = int_group g "radio" in
    let bound =
      ite (String_discrete (group_text g "role") "SRC") (record p { last_lrrp_src = some radio })
        p in
    (
      bound,
      ip_mapping (record {
        role = group_text g "role";
        radio_id = radio;
        ip = group_text g "ip";
        port = int_group g "port";
      }),
    )

-- `float(s)` in units of the fifth decimal place: `places` digits are still wanted
unfoldable pub fraction_from : ℕ → ℕ → String → ℕ
fraction_from zero n s = n
fraction_from (suc places) n String.[] = fraction_from places (n * 10) String.[]
fraction_from (suc places) n (String.◌∷◌ c s) = fraction_from places (n * 10 + (code c - b'0')) s

unfoldable pub whole_from : ℕ → String → ℕ
unfolding fraction_from
whole_from n String.[] = fraction_from 5 n String.[]
whole_from n (String.◌∷◌ c s) =
    let more = whole_from (n * 10 + (code c - b'0')) s in
    if code c == b'.' then fraction_from 5 n s else more

unfoldable pub coordinate : String → ℤ
unfolding whole_from
coordinate String.[] = pos 0
coordinate (String.◌∷◌ c s) =
    let below : ℤ = elim (whole_from 0 s) [ zero ↦ pos 0 | suc n ↦ negsuc n ] in
    if code c == b'-' then below else pos (whole_from 0 (String.◌∷◌ c s))

-- the position takes the bound radio, and the binding is used up
unfoldable pub make_lrrp_position : Handler
unfolding group_text coordinate
make_lrrp_position p g = (
  record p { last_lrrp_src = none },
  lrrp_position (record {
    src = p.last_lrrp_src;
    lat = coordinate (group_text g "lat");
    lon = coordinate (group_text g "lon");
  }),
)

unfoldable pub make_lrrp_request : Handler
unfolding int_group group_text has_text
make_lrrp_request p g = (
  p,
  lrrp_request (record {
    src = int_group g "src";
    tgt = int_group g "tgt";
    direction = if has_text "Request" (group_text g "dir") then "Request" else "Response";
  }),
)

unfoldable pub make_encryption : Handler
unfolding int_group group_text
make_encryption p g = (
  p,
  encryption
      (record { slot = int_group g "slot"; flco = group_text g "flco"; fid = group_text g "fid" }),
)
