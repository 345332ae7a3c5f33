-- ===== src/Redact.antt =====
-- redact/: the redactor. Tokenize and Match say which keys the denylist names, Apply masks an event.
pub mod Tokenize
pub mod Match
pub mod Apply
pub mod Build
mod Tests
