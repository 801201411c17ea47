-- ===== src/Audit.antt =====
-- audit_log.py: the chain of entries in the audit file, what an entry says of an action, and who may
-- own the file.
pub mod Text
pub mod Sanitize
pub mod Redaction
pub mod Fields
pub mod Lines
pub mod Entry
pub mod Truncation
pub mod Chain
pub mod Commitment
pub mod Access
pub mod Logging
mod Tests
