-- ===== src/Tests/EventLog.antt =====
-- backend/event_log.py: a pruning with an append in its midst, three days, and names and values.
use dmr_decrep_shahar.Prelude.{
  ◌++◌, nat_key, string_key, ℕ, ◌+◌, ◌*◌, true, false, none, some, List, [], ◌∷◌, ◌≡◌, refl,
}
use dmr_decrep_shahar.Text.{
  is_space, lstrip, rstrip, strip, is_digit, size, take_chars, all_digits, number, number_from,
}
use dmr_decrep_shahar.Models.{Event, quality}
use dmr_decrep_shahar.EventIndex.{day_of}
use dmr_decrep_shahar.EventLog.{
  EventLog, event_line, junk, Outcome, all_well, new_log, day_lines, is_current,
}
use dmr_decrep_shahar.EventLog.Retention.{append_all, start_prune, prune_older_than, Meanwhile}
use dmr_decrep_shahar.EventLog.Rewrite.{swaps, drop_old, prune_older_than-at_once}
use dmr_decrep_shahar.EventLog.Journal.{
  Op, append_op, prune_op, run_ops, journal_ops, journal_op, lines_on,
}
use dmr_decrep_shahar.EventLog.Days.{no_journal, run_ops-journal_ops}
use dmr_decrep_shahar.EventLog.Reading.{recent, collect_recent, of_types, is_before}
use dmr_decrep_shahar.EventLog.Quality.{verdict_for, verdict_from, rate_below}
use dmr_decrep_shahar.EventLog.Files.{
  day_from_filename, drop_chars, is_char, since_seconds, unit_seconds, last_code,
}

abbrev at : ℕ → Event
at ts = record {
  timestamp = ts;
  raw_line = "";
  schema_version = 1;
  frequency = none;
  channel_label = none;
  body = quality "CSBK_CRC";
}

-- a single file with an old line, one that is not an event, and a new one
abbrev one_file : EventLog
one_file = record {
  capacity = 2;
  has_path = true;
  partition = false;
  buf = at 10 ∷ at 20 ∷ [];
  current_day = none;
  writer = true;
  history = event_line (at 10) ∷ junk 7 7 ∷ event_line (at 20) ∷ [];
  days = [];
  index = none;
  index_failed_once = false;
  write_errors = 0;
}

abbrev failed : Outcome
failed = record { opens = true; writes = false; indexes = true }

-- one of the events cannot be written
abbrev meanwhile : Meanwhile
meanwhile = record {
  before_size = (1, all_well, at 12) ∷ [];
  before_read = (2, failed, at 30) ∷ (3, all_well, at 31) ∷ [];
  before_swap = (4, all_well, at 32) ∷ [];
}

prune_older_than-at_once_example :
    prune_older_than 40 (λ ev. 300) swaps one_file 15 meanwhile
    ≡ append_all
        (drop_old 15 (append_all (start_prune 40 one_file 15) meanwhile.before_size))
        (meanwhile.before_read ++ meanwhile.before_swap)
prune_older_than-at_once_example =
    prune_older_than-at_once 40 15 (λ ev. 300) one_file meanwhile (refl, refl)
      (tt, (refl, (tt, tt)))

abbrev a_day : ℕ
a_day = 86_400_000_000

-- an event of the first day, two of the third, one more of the first, and a pruning of what is before
-- the third: the file of the first day is open
abbrev ops : List Op
ops =
    append_op 0 (at 5)
    ∷ append_op 0 (at (2 * a_day))
    ∷ append_op 0 (at (a_day + 3))
    ∷ append_op 0 (at 6)
    ∷ prune_op 0 2
    ∷ []

run_ops-journal_ops_example :
    day_lines (run_ops (new_log 2 true true none) ops).days 0
    ≡ lines_on 0 (journal_ops no_journal ops).events
run_ops-journal_ops_example = run_ops-journal_ops 2 0 none ops

first_day :
    lines_on 0 (journal_ops no_journal ops).events ≡ event_line (at 5) ∷ event_line (at 6) ∷ []
unfolding journal_ops journal_op day_of is_current
first_day = refl

second_day : lines_on 1 (journal_ops no_journal ops).events ≡ []
unfolding journal_ops journal_op day_of is_current
second_day = refl

newest : recent one_file 1 (some 10) [] ≡ at 20 ∷ []
unfolding recent collect_recent of_types is_before
newest = refl

verdict : verdict_for (record { errors = 3; decodes = 97 }) ≡ "marginal"
unfolding verdict_for verdict_from rate_below
verdict = refl

day_name : day_from_filename "events-2024-05-31" ≡ some "2024-05-31"
unfolding day_from_filename size drop_chars take_chars is_char all_digits is_digit
day_name = refl

unknown_date : day_from_filename "events-unknown-date" ≡ none
unfolding day_from_filename size drop_chars take_chars is_char all_digits is_digit
unknown_date = refl

five_minutes : since_seconds " 5m" ≡ some 300
unfolding since_seconds strip lstrip rstrip is_space size take_chars all_digits is_digit number
    number_from unit_seconds last_code
five_minutes = refl
