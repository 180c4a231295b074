-- ===== src/Wrapper.antt =====
-- backend/wrapper.py: `LineRunner`, which feeds the lines of a decoder through the parser to the state, the
-- event log and the callback, and the loop that starts the decoder again. What a process does is an
-- argument: its lines, how it ends, and the signals that are set meanwhile.
pub mod Retry
pub mod Consume
use dmr_decrep_shahar.Prelude.{
  ℕ, String, Bool, true, false, Option, none, some, List, [], ◌∷◌, ◌++◌, if◌then◌else◌,
}
use dmr_decrep_shahar.Models.{Event}
use dmr_decrep_shahar.Channels.{Channel}
use dmr_decrep_shahar.Parser.Handlers.{DsdLogParser}
use dmr_decrep_shahar.Parser.Line.{new_parser, parse_line}
use dmr_decrep_shahar.State.Data.{StateManager}
use dmr_decrep_shahar.State.Apply.{apply}
use dmr_decrep_shahar.EventLog.{EventLog, Outcome, append_event}

-- `reported` has the calls of `on_event`, whose exceptions are dropped
pub record LineRunner : Type 0 where
  pub state : StateManager
  pub event_log : Option EventLog
  pub parser : DsdLogParser
  pub channel : Option Channel
  pub reported : List Event

unfoldable pub new_runner : StateManager → Option EventLog → Option Channel → LineRunner
unfolding new_parser
new_runner state event_log channel = record {
  state = state;
  event_log = event_log;
  parser = new_parser;
  channel = channel;
  reported = [];
}

-- a line that arrives: whether `stop` was called, the clocks, what succeeds in the log, and the text
pub record Arrival : Type 0 where
  pub is_stopped : Bool
  pub wall : ℕ
  pub now : ℕ
  pub outcome : Outcome
  pub line : String

-- the channel of a runner on its events
unfoldable pub stamp : Option Channel → Event → Event
stamp none ev = ev
stamp (some c) ev = record ev { channel_label = some c.label; frequency = some c.frequency_hz }

unfoldable pub log_event : Arrival → Option EventLog → Event → Option EventLog
unfolding append_event
log_event a none ev = none
log_event a (some l) ev = some (append_event a.now a.outcome l ev)

-- what becomes of an event
unfoldable pub handle_event : Arrival → LineRunner → Event → LineRunner
unfolding stamp apply log_event
handle_event a r ev =
    let stamped = stamp r.channel ev in
    record r {
      state = apply r.state stamped;
      event_log = log_event a r.event_log stamped;
      reported = r.reported ++ stamped ∷ [];
    }

unfoldable pub handle_parsed : Arrival → LineRunner → DsdLogParser × Option Event → LineRunner
unfolding handle_event
handle_parsed a r (p, none) = record r { parser = p }
handle_parsed a r (p, some ev) = handle_event a (record r { parser = p }) ev

-- `consume_lines`, and whether it ends without an exception
unfoldable pub consume_lines : LineRunner → List Arrival → LineRunner × Bool
unfolding parse_line handle_parsed
consume_lines r [] = (r, true)
consume_lines r (a ∷ more) = elim a.is_stopped [
  | true ↦ (r, true)
  | false ↦ elim (parse_line r.parser a.wall a.line) [
    | none ↦ (r, false)
    | some out ↦ consume_lines (handle_parsed a r out) more
  ]
]
