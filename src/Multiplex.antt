-- ===== src/Multiplex.antt =====
-- backend/rf/multiplex.py: one `LineRunner` for each channel, on one state and one event log. The lines of
-- the channels come in some order, one after the other; a channel is named by its index in the plan.
pub mod Apart
use dmr_decrep_shahar.Prelude.{
  nat_key, ℕ, ◌+◌, String, Bool, true, false, Option, none, some, List, [], ◌∷◌,
}
use Prim.Native.String.{◌++◌}
use dmr_decrep_shahar.Dict.{Dict, get, put}
use dmr_decrep_shahar.Models.{Event}
use dmr_decrep_shahar.Channels.{Channel, ChannelPlan}
use dmr_decrep_shahar.Parser.Handlers.{DsdLogParser}
use dmr_decrep_shahar.Parser.Line.{new_parser, parse_line}
use dmr_decrep_shahar.State.Data.{StateManager}
use dmr_decrep_shahar.EventLog.{EventLog}
use dmr_decrep_shahar.Wrapper.{LineRunner, Arrival, handle_parsed}

-- `build_channel_command`, with the text of a port
unfoldable pub build_channel_command :
    (ℕ → String) → Channel → String → String → String → ℕ → List String
build_channel_command text c dsd_bin calls_dir host port =
    dsd_bin
    ∷ "-fs"
    ∷ "-i"
    ∷ ("tcp:" ++ host ++ ":" ++ text port)
    ∷ "-7"
    ∷ (calls_dir ++ "/" ++ c.label)
    ∷ "-P"
    ∷ []

-- `port_of`, as a list in the order of the plan
unfoldable pub ports_from : ℕ → ChannelPlan → List (String × ℕ)
ports_from port [] = []
ports_from port (c ∷ cs) = (c.label, port) ∷ ports_from (port + 1) cs

-- the shared parts, and the channel and the parser of each runner
pub record Multichannel : Type 0 where
  pub state : StateManager
  pub event_log : Option EventLog
  pub reported : List Event
  pub channels : Dict ℕ Channel
  pub parsers : Dict ℕ DsdLogParser

unfoldable pub add_runners : ℕ → ChannelPlan → Multichannel → Multichannel
unfolding put new_parser
add_runners i [] m = m
add_runners i (c ∷ cs) m =
    add_runners (i + 1) cs
      (record m { channels = put m.channels i c; parsers = put m.parsers i new_parser })

-- the runners of a plan before their first lines
unfoldable pub start_multichannel : ChannelPlan → StateManager → Option EventLog → Multichannel
unfolding add_runners
start_multichannel plan state event_log =
    add_runners 0 plan
      (record { state = state; event_log = event_log; reported = []; channels = []; parsers = [] })

-- the runner of a channel, on the shared parts
unfoldable pub runner_of : Multichannel → ℕ → DsdLogParser → LineRunner
unfolding get
runner_of m i p = record {
  state = m.state;
  event_log = m.event_log;
  parser = p;
  channel = get m.channels i;
  reported = m.reported;
}

-- what a runner leaves
unfoldable pub absorb : Multichannel → ℕ → LineRunner → Multichannel
unfolding put
absorb m i r = record m {
  state = r.state;
  event_log = r.event_log;
  reported = r.reported;
  parsers = put m.parsers i r.parser;
}

-- a line of a channel; `none` is an exception, which leaves `run_multichannel`. What the tasks of the
-- other channels do after that is not modelled.
unfoldable pub channel_line : Multichannel → ℕ → Arrival → Option Multichannel
unfolding get parse_line handle_parsed runner_of absorb
channel_line m i a = elim (get m.parsers i) [
  | none ↦ some m
  | some p ↦ elim (parse_line p a.wall a.line) [
    | none ↦ none
    | some out ↦ some (absorb m i (handle_parsed a (runner_of m i p) out))
  ]
]

-- `run_multichannel`, as the lines come, before the stop: no runner is stopped yet
unfoldable pub run_multichannel : Multichannel → List (ℕ × Arrival) → Option Multichannel
unfolding channel_line
run_multichannel m [] = some m
run_multichannel m ((i, a) ∷ more) = elim (channel_line m i a) [
  | none ↦ none
  | some m' ↦ run_multichannel m' more
]
