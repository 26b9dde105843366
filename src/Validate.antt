-- ===== src/Validate.antt =====
-- src/validate.rs: the validator.
pub mod Verdict
pub mod Scalars
pub mod Numbers
pub mod Judge
pub mod Early
pub mod Cycle
pub mod Returns
pub mod Nodes
