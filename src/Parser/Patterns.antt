-- ===== src/Parser/Patterns.antt =====
-- backend/parser.py: the patterns of the lines, each as its regular expression is written.
use dmr_decrep_shahar.Prelude.{ℕ, Bool, true, false, not, ◌&&◌, ◌||◌, leb, ◌==◌}
use dmr_decrep_shahar.Text.{is_space, is_digit, is_upper, is_lower}
use dmr_decrep_shahar.Regex.{
  Regex, start, finish, one, many, group, either, ◌▸◌, exact, any_case, some_of, spaces, spaces1,
  digits,
}

unfoldable pub is_letter : ℕ → Bool
unfolding is_upper is_lower
is_letter c = is_upper c || is_lower c

-- `\w`, `[0-9A-Fa-f]`, `\S`, and `.`
unfoldable pub is_word : ℕ → Bool
unfolding is_letter is_digit
is_word c = is_letter c || is_digit c || c == b'_'

unfoldable pub is_hex : ℕ → Bool
unfolding is_digit
is_hex c = is_digit c || leb b'A' c && leb c b'F' || leb b'a' c && leb c b'f'

unfoldable pub not_space : ℕ → Bool
unfolding is_space
not_space c = not (is_space c)

unfoldable pub not_line_feed : ℕ → Bool
not_line_feed c = not (c == 10)

unfoldable pub is_parameter : ℕ → Bool
unfolding is_digit
is_parameter c = is_digit c || c == b';' || c == b'?'

unfoldable pub is_address : ℕ → Bool
unfolding is_digit
is_address c = is_digit c || c == b'.'

abbrev pub ansi_re : Regex
ansi_re =
    one (λ c. c == 27)
    ▸ either (exact "[" ▸ many true is_parameter ▸ one is_letter) (exact "(" ▸ one not_line_feed)

-- a dash between optional spaces
abbrev pub dash : Regex
dash = spaces ▸ exact "-" ▸ spaces

abbrev pub two_digits : Regex
two_digits = one is_digit ▸ one is_digit

abbrev pub sync_re : Regex
sync_re =
    group "h" two_digits
    ▸ exact ":"
    ▸ group "m" two_digits
    ▸ exact ":"
    ▸ group "s" two_digits
    ▸ spaces1
    ▸ exact "Sync:"
    ▸ spaces
    ▸ exact "+DMR"

abbrev pub ch_status_re : Regex
ch_status_re =
    any_case "Capacity"
    ▸ spaces1
    ▸ any_case "Plus"
    ▸ spaces1
    ▸ any_case "Channel"
    ▸ spaces1
    ▸ any_case "Status"
    ▸ dash
    ▸ any_case "FL:"
    ▸ spaces
    ▸ group "fl" digits
    ▸ spaces1
    ▸ any_case "TS:"
    ▸ spaces
    ▸ group "ts" digits
    ▸ spaces1
    ▸ any_case "RS:"
    ▸ spaces
    ▸ group "rs" digits
    ▸ dash
    ▸ any_case "Rest"
    ▸ spaces1
    ▸ any_case "LSN:"
    ▸ spaces
    ▸ group "rest_lsn" digits
    ▸ dash
    ▸ group "block" (either (any_case "Single") (either (any_case "Initial") (any_case "Final")))
    ▸ spaces1
    ▸ any_case "Block"

abbrev pub bank_call_re : Regex
bank_call_re =
    any_case "Bank"
    ▸ spaces1
    ▸ group "bank" (either (any_case "One") (any_case "Two"))
    ▸ spaces1
    ▸ group "flag" (some_of is_hex)
    ▸ spaces1
    ▸ group "desc" (one not_line_feed ▸ many false not_line_feed)
    ▸ spaces1
    ▸ any_case "Call(s)"
    ▸ dash
    ▸ group "rest" (one not_line_feed ▸ many false not_line_feed)
    ▸ spaces
    ▸ finish

abbrev pub bank_pair_re : Regex
bank_pair_re =
    exact "LSN"
    ▸ spaces1
    ▸ group "lsn" digits
    ▸ exact ":"
    ▸ spaces
    ▸ exact "TGT"
    ▸ spaces1
    ▸ group "tg" digits

abbrev pub lsn_pair_re : Regex
lsn_pair_re =
    exact "LSN"
    ▸ spaces1
    ▸ group "lsn" digits
    ▸ exact ":"
    ▸ spaces
    ▸ group "value" (one not_space ▸ many false not_space)
    ▸ exact ";"

abbrev pub slco_site_re : Regex
slco_site_re =
    any_case "SLCO"
    ▸ spaces1
    ▸ any_case "Capacity"
    ▸ spaces1
    ▸ any_case "Plus"
    ▸ spaces1
    ▸ any_case "Site:"
    ▸ spaces
    ▸ group "site" digits
    ▸ dash
    ▸ any_case "Rest"
    ▸ spaces1
    ▸ any_case "LSN:"
    ▸ spaces
    ▸ group "rest_lsn" digits
    ▸ dash
    ▸ any_case "RS:"
    ▸ spaces
    ▸ group "rs" (some_of is_word)

abbrev pub slco_crc_re : Regex
slco_crc_re =
    start
    ▸ spaces
    ▸ any_case "SLCO"
    ▸ spaces1
    ▸ any_case "CRC"
    ▸ spaces1
    ▸ any_case "ERR"
    ▸ spaces
    ▸ finish
