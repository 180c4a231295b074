-- ===== src/Tests.antt =====
-- Runs of the model at concrete inputs, and each theorem of the list in Lib.antt at an input that
-- meets its hypotheses.
pub mod State
pub mod Channels
pub mod Scheduler
pub mod Alerts
pub mod Network
pub mod Dossier
pub mod Parser
pub mod EventIndex
pub mod EventLog
pub mod Wrapper
pub mod Recordings
pub mod Control
pub mod Multiplex
