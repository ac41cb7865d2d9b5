-- ===== src/Tests.antt =====
-- Runs of the model on small inputs, and each result applied at one of them.
pub mod Shop
pub mod Lifecycles
pub mod Models
pub mod Guards
pub mod Cores
pub mod Evaluations
pub mod Adapters
pub mod Policies
mod Schemas
