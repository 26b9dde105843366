-- ===== src/Schema.antt =====
-- src/schema: the compiled schema.
pub mod Trie
pub mod Pattern
pub mod Node
pub mod Report
pub mod Keyword
pub mod Compile
