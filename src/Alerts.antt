-- ===== src/Alerts.antt =====
-- backend/alerts.py: the alert rules and their evaluation; the child modules follow its sections.
pub mod Data
pub mod Rules
pub mod Evaluate
pub mod Run
pub mod Loop
pub mod Frame
pub mod Cooldown
pub mod Silence
pub mod Memory
