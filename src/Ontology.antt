-- ===== src/Ontology.antt =====
-- Package ontology: the closed-world snapshot, the model checked against it, and the guard over both.
pub mod Names
pub mod Snapshot
pub mod Lifecycle
pub mod Signature
pub mod Groups
pub mod Constraints
pub mod Model
pub mod Scope
pub mod Guard
