-- ===== src/State.antt =====
-- backend/state.py, by its parts.
pub mod Data
pub mod Radios
pub mod Calls
pub mod Apply
pub mod Snapshot
pub mod History
