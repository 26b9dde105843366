-- ===== src/Lib.antt =====
-- jawohl: an incremental parser and validator for streaming JSON.
--
-- The parser (src/parser.rs) is a state machine over bytes. `Stream` (src/lib.rs) pushes chunks into
-- it and answers, by JSON Pointer, how far each value has come; `complete_json` and `parse_complete`
-- are one-shot uses of it.
--
-- Prelude: Boolean tests, lists measured by native numbers, texts as lists of their bytes.
-- Value, Error, Event: the data of src/value.rs, src/error.rs and src/event.rs. A Rust `String` is
--   the list of its UTF-8 bytes; `Vec<Value>` and the members of an object are types of their own.
-- Utf8: what src/parser.rs uses of Rust's `str` and `char`: `from_utf8`, `valid_up_to`,
--   `char::from_u32`, `encode_utf8`.
-- Pointer: `escape_token`, `parse_pointer` of src/lib.rs, and decimal indices.
--   Pointer/RoundTrip: what is printed is read back; Pointer/Decimal: an index needs no escape.
-- Parser: src/parser.rs. Parser/State is the struct `Parser` with its tokens and frames (the
--   innermost frame first) and the outcome of an operation on `&mut self`, in which the state stands
--   beside an error too. Parser/Structure (`attach`, `close_container`, `begin_value`,
--   `step_structural`), Parser/Strings (`step_string`), Parser/Numbers (`step_number`),
--   Parser/Literals (`step_literal`), Parser/Feed (`step`, `feed`, `finish`), Parser/Snapshot and
--   Parser/Completion hold its methods, one function for each.
--   Parser/Ensures is the rule for the loop over a chunk; Parser/Latch, Parser/Valid, Parser/Reach,
--   Parser/Paths, Parser/Grammar, Parser/Finished, Parser/Chunks, Parser/Stable, Parser/Once,
--   Parser/Depth and Parser/Settings are proofs.
-- Schema: the compiled schema. Schema/Trie is src/schema/trie.rs, with its proofs below it; Schema/Pattern
--   is src/schema/pattern.rs, with the automaton of regex-automata as the parameter `Dfa`; Schema/Node
--   is the node of src/schema/mod.rs, Schema/Report its report and schema.
-- Schema/Compile: src/schema/compile.rs. Schema/Keyword has the names of the keywords, Compile/State the
--   `Compiler` and `Lowered`, what its methods return; Compile/Leaves the keywords with no schema below
--   them, Compile/Lower `lower` and `resolve_ref`, on fuel since a reference may lead back to the value
--   that holds it, and Compile/Entry `compile`. Compile/Arena, Compile/Accounted, Compile/Ends
--   and Compile/Loops are proofs. A map (`BTreeMap`) is a list of entries.
-- Validate: src/validate.rs. Validate/Verdict (`fold`), Validate/Scalars (strings, `enum`, `const`),
--   Validate/Numbers (numbers and types, over a parameter `Floats` for `f64`) and Validate/Judge
--   (containers, combinators, `judge`); Validate/Nodes is `Validator` and `node_for`. A schema is a graph,
--   so `judge` runs on fuel and is `none` when it is spent, or where an index is out of the arena,
--   which is a panic. Validate/Verdict/Worst, Validate/Early,
--   Validate/Returns (enough fuel for a text) and Validate/Cycle are proofs. A search of the automaton
--   that is anchored at the start is a parameter of Validate/Early, with the documented law that it is
--   over at a dead state (`EndsDead`).
-- Stream: src/lib.rs. Stream/Status is what it answers of the parser, Stream/Entry its one-shot entry
--   points, Stream/Judged the `Stream` with a schema, whose verdicts are `none` when the fuel of `judge`
--   is spent, and Stream/Touched the paths that it judges; their child modules are proofs. The loop up
--   a path runs on the length of the path, which is enough since each turn cuts some of it off.
-- Tests: runs at concrete inputs, and the theorems at inputs that meet their hypotheses.
--
-- Bounds and fuel: a `usize` or `u64` is an unbounded number, since an offset or a length beyond 2 ^ 64
--   cannot be reached; `parse::<usize>` keeps its limit, and the `u16` of an escape its wrap-around.
--   `decimal` runs on fuel n + 1, and a number n has at most that many digits.
--
-- Not modelled: `Display` of errors, numbers and reports, which is formatting; `Number::as_i64`, which no
--   other method uses; the float that `Number::as_f64` reads is a parameter (`Floats`).

pub mod Prelude
pub mod Value
pub mod Error
pub mod Event
pub mod Utf8
pub mod Pointer
pub mod Parser
pub mod Schema
pub mod Validate
pub mod Stream
mod Tests
