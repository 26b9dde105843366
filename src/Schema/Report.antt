-- ===== src/Schema/Report.antt =====
-- src/schema/mod.rs: what was lowered, and the compiled schema. A reason's text is the constructor's.
use jawohl.Prelude.{ℕ, List, Bytes}
use jawohl.Error.{ParseError}
use jawohl.Schema.Node.{NodeId, Node}

pub data Reason : Type 0 where
  unknown_type : Bytes → Reason
  expected_type_names expected_number expected_natural not_representable : Reason
  unanchored bad_regex : Reason
  annotation_results conditional not_lowered annotation_only : Reason
  unrecognised : Reason

-- One keyword that was not lowered, and why.
pub record Unsupported : Type 0 where
  pub location : Bytes
  pub keyword : Bytes
  pub reason : Reason

pub record LoweringReport : Type 0 where
  pub compiled : ℕ
  pub unsupported : List Unsupported

pub record Schema (F D : Type 0) : Type 0 where
  pub nodes : List (Node F D)
  pub root : NodeId
  pub report : LoweringReport

-- src/schema/compile.rs: why a schema could not be compiled at all.
pub data SchemaError : Type 0 where
  not_json : ParseError → SchemaError
  not_a_schema : SchemaError
  unresolvable_ref : Bytes → SchemaError
