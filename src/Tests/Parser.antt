-- ===== src/Tests/Parser.antt =====
-- backend/parser.py: lines of a log, as the source quotes them.
use dmr_decrep_shahar.Prelude.{
  arith, nat_key, string_key, ℕ, String, true, false, Option, none, some, List, [], ◌∷◌, ◌≡◌, ◌↔◌,
  refl, pos, negsuc, String_discrete, ℕ_discrete,
}
use dmr_decrep_shahar.Dict.{get, put, put_all}
use dmr_decrep_shahar.Text.{
  is_space, lstrip, rstrip, strip, is_digit, is_upper, is_lower, lower_char, upper_char, lower,
  upper, capitalize, size, take_chars, number_from, number, all_digits, has_text,
}
use dmr_decrep_shahar.Regex.{
  first_of, match_many, match_few, match_one, is_finish, match_at, search_from, search_in, find_all,
  remove_all, exact, fold, any_case, group_text,
}
use dmr_decrep_shahar.Models.{
  Event, Body, voice_call, bank_call, lsn_status, lrrp_position, ip_mapping, data_header, quality,
}
use dmr_decrep_shahar.Parser.Patterns.{
  is_letter, is_word, is_hex, not_space, not_line_feed, is_parameter, is_address,
}
use dmr_decrep_shahar.Parser.Handlers.{
  DsdLogParser, int_group, optional_int, has_group, make_channel_status, make_site_info,
  make_bank_call, make_slco_crc, lsn_state, lsn_states, make_voice_call, make_preamble_csbk,
  make_data_header, make_ip_mapping, fraction_from, whole_from, coordinate, make_lrrp_position,
  make_lrrp_request, make_encryption,
}
use dmr_decrep_shahar.Parser.Line.{
  new_parser, midnight, base_date, update_timestamp, now_of, new_event, sync_error, run_matchers,
  body_line, event_of, sync_line, rstrip_line_feeds, clean_line, is_blank, parse_line, with_event,
  parse_lines,
}
use dmr_decrep_shahar.Parser.Order.{InOrder, parse_lines-InOrder}
use dmr_decrep_shahar.Parser.Binding.{Chained, bound_by, parse_lines-Chained}
use dmr_decrep_shahar.Parser.Errors.{
  TellsImpossibleTime, IsPlain, all_ascii, parse_line-TellsImpossibleTime,
}

abbrev body_of : Option (DsdLogParser × Option Event) → Option Body
body_of none = none
body_of (some (p, none)) = none
body_of (some (p, some ev)) = some ev.body

parsed : String → Option Body
unfolding is_space lstrip rstrip strip is_digit is_upper is_lower lower_char upper_char lower upper
    capitalize size take_chars number_from number all_digits has_text first_of match_many match_few
    match_one is_finish match_at search_from search_in find_all remove_all exact fold any_case
    group_text get put put_all String_discrete ℕ_discrete is_letter is_word is_hex not_space
    not_line_feed is_parameter is_address int_group optional_int has_group make_channel_status
    make_site_info make_bank_call make_slco_crc lsn_state lsn_states make_voice_call
    make_preamble_csbk make_data_header make_ip_mapping fraction_from whole_from coordinate
    make_lrrp_position make_lrrp_request make_encryption new_parser midnight base_date
    update_timestamp now_of new_event sync_error run_matchers body_line event_of sync_line
    rstrip_line_feeds clean_line is_blank parse_line
parsed line = body_of (parse_line new_parser 0 line)

voice :
    parsed " SLOT 2 TGT=1 SRC=2102 Cap+ Group TXI Call  Rest LSN: 5 \n"
    ≡ some (
        voice_call (record {
          slot = 2;
          src = 2102;
          tgt = 1;
          is_cap_plus = true;
          is_txi = true;
          rest_lsn = some 5;
        }))
unfolding parsed
voice = refl

plain_voice :
    parsed " SLOT 2 TGT=1 SRC=223 Group Call  "
    ≡ some (
        voice_call (record {
          slot = 2;
          src = 223;
          tgt = 1;
          is_cap_plus = false;
          is_txi = false;
          rest_lsn = none;
        }))
unfolding parsed
plain_voice = refl

header :
    parsed
      " Slot 1 Data Header - Indiv - Confirmed Delivery - Response Requested - Source: 199 Target: 64250 "
    ≡ some (
        data_header (record {
          slot = 1;
          addressing = "Indiv";
          delivery = "Confirmed Delivery";
          response_requested = true;
          src = 199;
          tgt = 64_250;
        }))
unfolding parsed
header = refl

position :
    parsed " Lat: 32.10128 Lon: -34.87151 (32.10128, 34.87151)"
    ≡ some (lrrp_position (record { src = none; lat = pos 3_210_128; lon = negsuc 3_487_150 }))
unfolding parsed
position = refl

mapping :
    parsed " SRC(24): 00000068; IP: 012.000.000.068; Port: 4001; "
    ≡ some
        (ip_mapping (record { role = "SRC"; radio_id = 68; ip = "012.000.000.068"; port = 4001 }))
unfolding parsed
mapping = refl

states :
    parsed " LSN 1: Idle; LSN 2: 101; LSN 3: Rest;"
    ≡ some (
        lsn_status (
          record { lsn = 1; state = "Idle"; tg = none }
          ∷ record { lsn = 2; state = "Active"; tg = some 101 }
          ∷ record { lsn = 3; state = "Rest"; tg = none }
          ∷ []))
unfolding parsed
states = refl

bank :
    parsed "Bank One C0 Group Voice Call(s) - LSN 1: TGT 5; LSN 3: TGT 7;"
    ≡ some (
        bank_call (record {
          bank = "One";
          flag_byte = "C0";
          description = "Group Voice";
          lsn_to_tg = (1, 5) ∷ (3, 7) ∷ [];
        }))
unfolding parsed
bank = refl

crc_error : parsed "12:00:01 Sync: +DMR  [SLOT1] | CSBK (CRC ERR)" ≡ some (quality "CSBK_CRC")
unfolding parsed
crc_error = refl

no_such_time : parse_line new_parser 0 "99:00:01 Sync: +DMR" ≡ none
unfolding parsed
no_such_time = refl

-- a second before midnight of the first day
abbrev pub late : DsdLogParser
late = record { last_timestamp = some 86_399_000_000; last_lrrp_src = none }

abbrev pub lines : List (ℕ × String)
lines =
    (0, " SRC(24): 00000068; IP: 012.000.000.068; Port: 4001; ")
    ∷ (0, "00:00:01 Sync: +DMR  [SLOT1] | CSBK (FEC ERR)")
    ∷ (0, " Lat: 1.5 Lon: -2.25 ")
    ∷ (0, " Lat: 1.5 Lon: 2.25 ")
    ∷ []

abbrev at_time : ℕ → String → Body → Event
at_time t line body = record {
  timestamp = t;
  raw_line = line;
  schema_version = 1;
  frequency = none;
  channel_label = none;
  body = body;
}

abbrev pub events : List Event
events =
    at_time 86_399_000_000 " SRC(24): 00000068; IP: 012.000.000.068; Port: 4001; "
      (ip_mapping (record { role = "SRC"; radio_id = 68; ip = "012.000.000.068"; port = 4001 }))
    ∷ at_time 86_401_000_000 "00:00:01 Sync: +DMR  [SLOT1] | CSBK (FEC ERR)" (quality "CSBK_FEC")
    ∷ at_time 86_401_000_000 " Lat: 1.5 Lon: -2.25 "
        (lrrp_position (record { src = some 68; lat = pos 150_000; lon = negsuc 224_999 }))
    ∷ at_time 86_401_000_000 " Lat: 1.5 Lon: 2.25 "
        (lrrp_position (record { src = none; lat = pos 150_000; lon = pos 225_000 }))
    ∷ []

abbrev pub after : DsdLogParser
after = record { last_timestamp = some 86_401_000_000; last_lrrp_src = none }

pub lines-read : parse_lines late lines ≡ some (after, events)
unfolding is_space lstrip rstrip strip is_digit is_upper is_lower lower_char upper_char lower upper
    capitalize size take_chars number_from number all_digits has_text first_of match_many match_few
    match_one is_finish match_at search_from search_in find_all remove_all exact fold any_case
    group_text get put put_all String_discrete ℕ_discrete is_letter is_word is_hex not_space
    not_line_feed is_parameter is_address int_group optional_int has_group make_channel_status
    make_site_info make_bank_call make_slco_crc lsn_state lsn_states make_voice_call
    make_preamble_csbk make_data_header make_ip_mapping fraction_from whole_from coordinate
    make_lrrp_position make_lrrp_request make_encryption new_parser midnight base_date
    update_timestamp now_of new_event sync_error run_matchers body_line event_of sync_line
    rstrip_line_feeds clean_line is_blank parse_line with_event parse_lines
lines-read = refl

parse_lines-InOrder_example : InOrder 86_399_000_000 events
parse_lines-InOrder_example =
    parse_lines-InOrder late after 86_399_000_000 lines events refl lines-read

parse_lines-Chained_example : Chained none events × (none ≡ bound_by none events)
parse_lines-Chained_example = parse_lines-Chained late after lines events lines-read

plain : IsPlain "99:00:01 Sync: +DMR"
unfolding all_ascii size
plain = (refl, omega arith)

parse_line-TellsImpossibleTime_example :
    parse_line new_parser 0 "99:00:01 Sync: +DMR" ≡ none
    ↔ TellsImpossibleTime (clean_line "99:00:01 Sync: +DMR")
parse_line-TellsImpossibleTime_example =
    parse_line-TellsImpossibleTime new_parser 0 "99:00:01 Sync: +DMR" plain
