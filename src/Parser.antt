-- ===== src/Parser.antt =====
-- backend/parser.py: from the lines of the decoder's log to events; the child modules follow its
-- sections.
pub mod Patterns
pub mod Payload
pub mod Handlers
pub mod Line
pub mod Cases
pub mod Order
pub mod Binding
pub mod Errors
