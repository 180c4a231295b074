-- ===== src/Tests/Wrapper.antt =====
-- backend/wrapper.py: the lines of a site's channel, and a decoder that is retuned.
use dmr_decrep_shahar.Prelude.{String, Bool, true, false, none, some, List, [], ◌∷◌, ◌≡◌, refl}
use dmr_decrep_shahar.State.Data.{StateManager}
use dmr_decrep_shahar.EventLog.{EventLog, all_well}
use dmr_decrep_shahar.Wrapper.{LineRunner, Arrival, consume_lines}
use dmr_decrep_shahar.Wrapper.Consume.{Delivers, consume_lines-Delivers}
use dmr_decrep_shahar.Wrapper.Retry.{
  Child, ChildEnd, eof, timed_out, not_spawned, stream_subprocess_with_retry, child_lines,
  was_interrupt, interrupt_after, yield_before, sleep_before,
}
use dmr_decrep_shahar.Tests.Parser.{late, after, events, lines-read}

abbrev pub manager : StateManager
manager = record {
  call_idle_timeout = 2_000_000;
  position_history_length = 50;
  broadcast_max_radios = 100;
  broadcast_trail_max_age = 900_000_000;
  max_radios = 5_000;
  radios = [];
  active_calls = [];
  system = record { site = none; rest_lsn = none; lsn_states = []; last_seen = none };
  quality = record {
    csbk_crc = 0;
    csbk_fec = 0;
    cach_burst_fec = 0;
    slco_crc = 0;
    last_error_at = none;
    total_events_seen = 0;
  };
  last_event_at = none;
  cur_channel_label = none;
  cur_frequency = none;
  radios_evicted_total = 0;
  notices = [];
}

abbrev small_log : EventLog
small_log = record {
  capacity = 2;
  has_path = false;
  partition = false;
  buf = [];
  current_day = none;
  writer = false;
  history = [];
  days = [];
  index = none;
  index_failed_once = false;
  write_errors = 0;
}

abbrev runner : LineRunner
runner = record {
  state = manager;
  event_log = some small_log;
  parser = late;
  channel =
      some (record { label = "LCN1"; frequency_hz = 451_000_000; lsn = some 1; control = true });
  reported = [];
}

abbrev pub arrives : String → Arrival
arrives line = record { is_stopped = false; wall = 0; now = 0; outcome = all_well; line = line }

abbrev arrivals : List Arrival
arrivals =
    arrives " SRC(24): 00000068; IP: 012.000.000.068; Port: 4001; "
    ∷ arrives "00:00:01 Sync: +DMR  [SLOT1] | CSBK (FEC ERR)"
    ∷ arrives " Lat: 1.5 Lon: -2.25 "
    ∷ arrives " Lat: 1.5 Lon: 2.25 "
    ∷ []

consume_lines-Delivers_example : Delivers runner after events (consume_lines runner arrivals)
consume_lines-Delivers_example =
    consume_lines-Delivers runner arrivals after events (refl, (refl, (refl, (refl, tt))))
      lines-read

abbrev child : ChildEnd → Bool → List String → Child
child ending interrupted lines = record {
  stopped_before = false;
  lines = lines;
  ending = ending;
  interrupted = interrupted;
  is_stopped = false;
  cancelled = false;
}

-- a stall, a decoder that is not there, a retune, and the end
respawns :
    stream_subprocess_with_retry
      (record { backoff = 2_000_000; retune_backoff = 200_000; interrupt_event = false })
      (child timed_out false ("a" ∷ [])
        ∷ child not_spawned false []
        ∷ child eof true ("b" ∷ [])
        ∷ record (child eof false ("c" ∷ [])) { is_stopped = true }
        ∷ [])
    ≡ record {
      yielded = "a" ∷ "b" ∷ "c" ∷ [];
      sleeps = 2_000_000 ∷ 2_000_000 ∷ 200_000 ∷ [];
      has_ended = true;
      interrupt_left = false;
    }
unfolding stream_subprocess_with_retry child_lines was_interrupt interrupt_after yield_before
    sleep_before
respawns = refl
