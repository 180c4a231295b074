-- ===== src/Parser/Payload.antt =====
-- backend/parser.py: the patterns of the lines of a payload channel.
use dmr_decrep_shahar.Prelude.{true, false, ◌==◌}
use dmr_decrep_shahar.Regex.{
  Regex, finish, one, many, optional, group, either, ◌▸◌, exact, some_of, spaces, spaces1, digits,
}
use dmr_decrep_shahar.Parser.Patterns.{is_hex, not_line_feed, is_address, dash}

-- `(?:\s+Rest\s+LSN:\s*(?P<rest_lsn>\d+))?` after a separator
abbrev pub rest_lsn_after : Regex → Regex
rest_lsn_after separator =
    optional (separator ▸ exact "Rest" ▸ spaces1 ▸ exact "LSN:" ▸ spaces ▸ group "rest_lsn" digits)

abbrev pub voice_call_re : Regex
voice_call_re =
    exact "SLOT"
    ▸ spaces1
    ▸ group "slot" digits
    ▸ spaces1
    ▸ exact "TGT="
    ▸ group "tgt" digits
    ▸ spaces1
    ▸ exact "SRC="
    ▸ group "src" digits
    ▸ spaces1
    ▸ optional (group "capplus" (exact "Cap+" ▸ spaces1))
    ▸ exact "Group"
    ▸ optional (group "txi" (spaces1 ▸ exact "TXI"))
    ▸ spaces1
    ▸ exact "Call"
    ▸ rest_lsn_after spaces1

abbrev pub preamble_csbk_re : Regex
preamble_csbk_re =
    exact "Preamble"
    ▸ spaces1
    ▸ exact "CSBK"
    ▸ dash
    ▸ group "addr" (either (exact "Individual") (exact "Group"))
    ▸ spaces1
    ▸ group "kind" (either (exact "Data") (either (exact "CSBK") (exact "Voice")))
    ▸ dash
    ▸ exact "Source:"
    ▸ spaces
    ▸ group "src" digits
    ▸ dash
    ▸ exact "Target:"
    ▸ spaces
    ▸ group "tgt" digits
    ▸ rest_lsn_after dash

abbrev pub data_header_re : Regex
data_header_re =
    exact "Slot"
    ▸ spaces1
    ▸ group "slot" digits
    ▸ spaces1
    ▸ exact "Data"
    ▸ spaces1
    ▸ exact "Header"
    ▸ dash
    ▸ group "addr" (either (exact "Indiv") (exact "Group"))
    ▸ dash
    ▸ group "delivery" (one not_line_feed ▸ many false not_line_feed)
    ▸ dash
    ▸ exact "Source:"
    ▸ spaces
    ▸ group "src" digits
    ▸ spaces1
    ▸ exact "Target:"
    ▸ spaces
    ▸ group "tgt" digits

-- the suffix that is taken off `delivery`
abbrev pub response_re : Regex
response_re = dash ▸ exact "Response" ▸ spaces1 ▸ exact "Requested" ▸ spaces ▸ finish

abbrev pub ip_mapping_re : Regex
ip_mapping_re =
    group "role" (either (exact "SRC") (exact "DST"))
    ▸ exact "("
    ▸ digits
    ▸ exact "):"
    ▸ spaces
    ▸ many true (λ c. c == b'0')
    ▸ group "radio" digits
    ▸ exact ";"
    ▸ spaces
    ▸ exact "IP:"
    ▸ spaces
    ▸ group "ip" (some_of is_address)
    ▸ exact ";"
    ▸ spaces
    ▸ exact "Port:"
    ▸ spaces
    ▸ group "port" digits

-- `-?\d+\.\d+`, as the sign, the whole part and the fraction of the coordinate
abbrev pub decimal : Regex
decimal = optional (exact "-") ▸ digits ▸ exact "." ▸ digits

abbrev pub lrrp_position_re : Regex
lrrp_position_re =
    exact "Lat:"
    ▸ spaces
    ▸ group "lat" decimal
    ▸ spaces1
    ▸ exact "Lon:"
    ▸ spaces
    ▸ group "lon" decimal

abbrev pub lrrp_reqresp_re : Regex
lrrp_reqresp_re =
    exact "LRRP"
    ▸ spaces1
    ▸ exact "SRC:"
    ▸ spaces
    ▸ group "src" digits
    ▸ exact ";"
    ▸ spaces
    ▸ group "dir" (
        either (exact "Request" ▸ spaces1 ▸ exact "from") (exact "Response" ▸ spaces1 ▸ exact "to"))
    ▸ spaces1
    ▸ exact "TGT:"
    ▸ spaces
    ▸ group "tgt" digits

abbrev pub encryption_re : Regex
encryption_re =
    exact "SLOT"
    ▸ spaces1
    ▸ group "slot" digits
    ▸ spaces1
    ▸ exact "Protected"
    ▸ spaces1
    ▸ exact "LC"
    ▸ spaces1
    ▸ exact "FLCO="
    ▸ group "flco" (exact "0x" ▸ some_of is_hex)
    ▸ spaces1
    ▸ exact "FID="
    ▸ group "fid" (exact "0x" ▸ some_of is_hex)
