-- ===== src/Core.antt =====
-- Package core: structured errors, redaction, vocabulary, conditions, decisions.
pub mod Codes
pub mod Error
pub mod Errors
pub mod Redaction
pub mod Types
pub mod Conditions
pub mod Vocabulary
pub mod Decisions
