-- ===== src/Fuzzpolicy.antt =====
-- internal/fuzzpolicy/generated_policy.go: the engine and the factory that the generator writes for a
-- policy, with the policy's facts, rules and defaults.
pub mod Facts
pub mod Rules
pub mod Engine
pub mod Factory
pub mod Meaning
pub mod Denies
pub mod Decides
pub mod Agreement
pub mod Trace
pub mod Total
pub mod Routes
pub mod Policy
pub mod Ranges
