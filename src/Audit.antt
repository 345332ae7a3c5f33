-- ===== src/Audit.antt =====
-- audit/: the audit journal. A line is its bytes, and a file the bytes of its lines. SHA-256 and
-- HMAC-SHA256 in hex, and what encoding/json makes of a line, are parameters.
pub mod Bytes
pub mod Lines
pub mod Verify
pub mod Journal
mod Tests
