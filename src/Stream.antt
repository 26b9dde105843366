-- ===== src/Stream.antt =====
-- src/lib.rs: what a `Stream` answers of its parser, and the one-shot entry points.
pub mod Status
pub mod Entry
pub mod Touched
pub mod Judged
