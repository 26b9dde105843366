-- ===== src/Validate/Early.antt =====
-- Early rejection of strings in src/validate.rs.
pub mod Rejects
pub mod Strings
pub mod Judged
pub mod Certain
pub mod Matched
pub mod Compiled
