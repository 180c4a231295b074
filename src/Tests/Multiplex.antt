-- ===== src/Tests/Multiplex.antt =====
-- backend/rf/multiplex.py: the lines of two channels in turn.
use dmr_decrep_shahar.Prelude.{
  nat_key, string_key, ℕ, none, some, List, [], ◌∷◌, ◌≡◌, refl, String_discrete, ℕ_discrete,
}
use dmr_decrep_shahar.Dict.{get, put, put_all}
use dmr_decrep_shahar.Text.{
  is_space, lstrip, rstrip, strip, is_digit, is_upper, is_lower, lower_char, upper_char, lower,
  upper, capitalize, size, take_chars, number_from, number, all_digits, has_text,
}
use dmr_decrep_shahar.Regex.{
  first_of, match_many, match_few, match_one, is_finish, match_at, search_from, search_in, find_all,
  remove_all, exact, fold, any_case, group_text,
}
use dmr_decrep_shahar.Parser.Patterns.{
  is_letter, is_word, is_hex, not_space, not_line_feed, is_parameter, is_address,
}
use dmr_decrep_shahar.Parser.Handlers.{
  int_group, optional_int, has_group, make_channel_status, make_site_info, make_bank_call,
  make_slco_crc, lsn_state, lsn_states, make_voice_call, make_preamble_csbk, make_data_header,
  make_ip_mapping, fraction_from, whole_from, coordinate, make_lrrp_position, make_lrrp_request,
  make_encryption,
}
use dmr_decrep_shahar.Parser.Line.{
  new_parser, midnight, base_date, update_timestamp, now_of, new_event, sync_error, run_matchers,
  body_line, event_of, sync_line, rstrip_line_feeds, clean_line, is_blank, parse_line,
}
use dmr_decrep_shahar.Multiplex.{Multichannel, runner_of, absorb, channel_line, run_multichannel}
use dmr_decrep_shahar.Multiplex.Apart.{RunsAlone, run_multichannel-RunsAlone}
use dmr_decrep_shahar.Wrapper.{Arrival, handle_parsed}
use dmr_decrep_shahar.Tests.Wrapper.{arrives, manager}

abbrev two_channels : Multichannel
two_channels = record {
  state = manager;
  event_log = none;
  reported = [];
  channels = [];
  parsers = (0, new_parser) ∷ (1, new_parser) ∷ [];
}

abbrev in_turn : List (ℕ × Arrival)
in_turn =
    (0, arrives "12:00:01 Sync: +DMR  [SLOT1]")
    ∷ (1, arrives "12:30:00 Sync: +DMR  [SLOT1]")
    ∷ (0, arrives "")
    ∷ (1, arrives "12:30:01 Sync: +DMR  [SLOT1]")
    ∷ []

abbrev at_end : Multichannel
at_end = record two_channels {
  parsers =
      (0, record { last_timestamp = some 43_201_000_000; last_lrrp_src = none })
      ∷ (1, record { last_timestamp = some 45_001_000_000; last_lrrp_src = none })
      ∷ [];
}

runs : run_multichannel two_channels in_turn ≡ some at_end
unfolding is_space lstrip rstrip strip is_digit is_upper is_lower lower_char upper_char lower upper
    capitalize size take_chars number_from number all_digits has_text first_of match_many match_few
    match_one is_finish match_at search_from search_in find_all remove_all exact fold any_case
    group_text get put put_all String_discrete ℕ_discrete is_letter is_word is_hex not_space
    not_line_feed is_parameter is_address int_group optional_int has_group make_channel_status
    make_site_info make_bank_call make_slco_crc lsn_state lsn_states make_voice_call
    make_preamble_csbk make_data_header make_ip_mapping fraction_from whole_from coordinate
    make_lrrp_position make_lrrp_request make_encryption new_parser midnight base_date
    update_timestamp now_of new_event sync_error run_matchers body_line event_of sync_line
    rstrip_line_feeds clean_line is_blank parse_line runner_of absorb channel_line run_multichannel
    handle_parsed
runs = refl

second_parser : get two_channels.parsers 1 ≡ some new_parser
unfolding get ℕ_discrete
second_parser = refl

run_multichannel-RunsAlone_example : RunsAlone 1 new_parser in_turn at_end
run_multichannel-RunsAlone_example =
    run_multichannel-RunsAlone two_channels at_end 1 new_parser in_turn second_parser runs
