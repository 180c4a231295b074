-- ===== src/Lib.antt =====
-- A model of the DMR decoder service's core: the Python package `backend` of this repository.
--
-- The service runs the decoder dsd-fme, parses the lines of its log to events, and gives each event
-- to the parts that follow the radio system: the state of the dashboard, the event log with its
-- index, the alert rules, and the scheduler that picks the channels to decode. Each of these is a
-- record here, and each of its methods a function from the state before to the state after. The
-- graph of who talks with whom and the calls of a radio are functions of rows that the event index
-- answers.
--
-- * Models (backend/models.py): the events, a record per class and the union as a data type.
-- * Parser (backend/parser.py): `DSDLogParser`. Parser.Patterns has the regular expressions,
--   Parser.Handlers the methods `_make_...` and `_try_lsn_status`, Parser.Line `parse_line` and
--   what it calls, and a run of lines in turn. The wall clock is an argument, and an exception is
--   `none`.
-- * State (backend/state.py): `StateManager`. State.Data has its records; State.Radios the dict of
--   radios with `_touch_radio` and `_evict_radios`; State.Calls the calls in progress with
--   `_expire_idle_calls`, `_on_voice_call` and `_on_encryption`; State.Apply the other handlers and
--   `apply`, `tick` and `reset`; State.Snapshot `snapshot` in both forms and `load_snapshot`;
--   State.History the sequences of events and ticks. The callbacks `on_call_started` and
--   `on_call_ended` are a list of notices, in the order of the calls.
-- * Alerts (backend/alerts.py): `Evaluator`. Alerts.Data has the rules and the state, Alerts.Rules
--   the operations on rules, firings and subscribers, Alerts.Evaluate what one rule makes of an
--   event or a tick (`_evaluate_event`, `_evaluate_tick`), and Alerts.Run the hooks `on_event` and
--   `tick`, with the sequences of them.
-- * Scheduler (backend/rf/scheduler.py): `TrafficScheduler`, fed by events and by measured powers.
-- * Channels (backend/channel_plan.py): the plan of a site's channels, which the scheduler is made
--   of.
-- * Network (backend/network.py): `compute_talker_pairs`, the aggregates in the module itself and
--   the edges and nodes in Network.Edges, on the rows that the event index answers.
-- * Dossier (backend/dossier.py): `_group_calls`, which makes calls of the voice frames of a radio;
--   the rest of a dossier is not modelled.
-- * EventIndex (backend/event_index.py): the rows of the table, with appends, commits and the
--   deletion of old rows in chunks; EventIndex.Queries and EventIndex.Aggregates have what it
--   answers, each SQL query as a function of the rows; EventLog.Rebuild makes the index again of
--   the log's files.
-- * EventLog (backend/event_log.py): `EventLog` with its buffer, its files and its index.
--   EventLog.Retention has the pruning, whose sizes of lines are given, EventLog.Reading `recent`, `iter_csv` and `stats`,
--   EventLog.Quality the ratios of errors, EventLog.Files `stream_history` and the names of files;
--   EventLog.Journal is the list of events that the files of a partitioned log stand for.
-- * Wrapper (backend/wrapper.py): `LineRunner`, which feeds each event that the parser makes to the
--   state, the event log and a callback; Wrapper.Retry the loop that starts the decoder again.
-- * Multiplex (backend/rf/multiplex.py): `run_multichannel`, one runner for each channel on one
--   state, with the lines of the channels in the order in which they come.
-- * Recordings (backend/recordings.py): `RecordingRegistry`; Recordings.Files what a file's name
--   and first bytes tell.
-- * Control (backend/rf/control.py, backend/dsd_command.py): `RfController` and the decoder's
--   command.
-- * Prelude, Dict, Sort, Text and Regex have what the parts share: Boolean tests and lists over the
--   native numbers, Python's `str` with the letters and digits of ASCII, its `re`, keys with
--   decidable equality, Python's dict as an association list in the order of insertion, and a
--   stable sort. Tests has runs at concrete inputs.
--
-- Times and durations are whole microseconds, frequencies whole hertz, coordinates integers in
-- units of the fifth decimal place of a degree, rates millionths, powers whole units of linear
-- power. Where the source subtracts two times and the result may be negative, the comparison is
-- written as a sum. Every loop is over a list and recursion is structural, but for the deletion in
-- chunks, which has fuel for each row to be a chunk. An operation is one step: the locks that make
-- it so are not modelled. The rewrite of the log's file is in several steps, with events appended
-- where the source does not hold the lock. Other operations that give up a lock in their midst are
-- one step all the same: the tick and the event of the alerts, whose firings are recorded after the
-- evaluation, and the deletion in chunks.
--
-- Whether a call of the file system or of a process succeeds is an argument of the operation. A
-- line of the log's files is an event as the program writes it, or not JSON, and has its end; other
-- JSON, which the program does not write, and a line cut off that the next is appended to are
-- outside the model. A time stands for its ISO text and the number of a day for its date: they have
-- the same order. A text of digits is a number whatever its length, where Python's `int` refuses
-- more than 4,300 digits. What the other channels do after an exception on one has ended
-- `run_multichannel` is not modelled.
--
-- Not modelled: files and JSON (`load_snapshot` and `validate_plan` take what was parsed), the text
-- of messages, the migration of the index, CSV rows, the HTTP server and command line, signal
-- processing, and the processes that run the decoder.
pub mod Prelude
pub mod Text
pub mod Regex
pub mod Dict
pub mod Sort
pub mod Models
pub mod Parser
pub mod EventIndex
pub mod EventLog
pub mod State
pub mod Channels
pub mod Scheduler
pub mod Alerts
pub mod Network
pub mod Dossier
pub mod Wrapper
pub mod Multiplex
pub mod Recordings
pub mod Control
mod Tests
