-- ===== src/Parser.antt =====
-- src/parser.rs: the incremental parser. `State` is its data; `Strings`, `Numbers`, `Literals` and
-- `Structure` are its steps, `Feed` its loop, `Completion` and `Snapshot` what it shows.
pub mod State
pub mod Structure
pub mod Strings
pub mod Numbers
pub mod Literals
pub mod Feed
pub mod Snapshot
pub mod Completion
pub mod Ensures
pub mod Latch
pub mod Valid
pub mod Reach
pub mod Paths
pub mod Once
pub mod Settings
pub mod Depth
pub mod Grammar
pub mod Finished
pub mod Chunks
pub mod Stable
