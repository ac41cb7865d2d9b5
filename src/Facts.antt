-- ===== src/Facts.antt =====
-- Package facts: the contract of a facts evaluation, its compact bindings, the errors of its
-- diagnostics, and the indexes that its cost suggests.
pub mod Contract
pub mod Binding
pub mod Diagnostics
pub mod Indexes
