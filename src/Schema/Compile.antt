-- ===== src/Schema/Compile.antt =====
-- src/schema/compile.rs: the compiler of schemas. `State` is its data, `Leaves` the keywords with no
-- schema below them, `Lower` the recursion, `Entry` the entry point.
pub mod State
pub mod Leaves
pub mod Lower
pub mod Entry
pub mod Ensures
pub mod Arena
pub mod Accounted
pub mod Loops
pub mod Ends
