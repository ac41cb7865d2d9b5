-- ===== src/Policygen.antt =====
-- internal/policygen/facts.go, internal/policygen/generator.go: the validation of a vocabulary and a
-- policy, which come from YAML, before an engine is generated.
pub mod Schema
pub mod Problem
pub mod Kinds
pub mod Facts
pub mod Predicate
pub mod Quote
pub mod Routes
pub mod Conditions
pub mod Validate
pub mod Typing
pub mod Leaves
pub mod WellTyped
pub mod Check
pub mod Referenced
pub mod Declared
pub mod Plan
