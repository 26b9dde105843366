-- ===== src/Schema/Compile/Entry.antt =====
-- src/schema/compile.rs: `compile`.
use jawohl.Prelude.{ℕ, [], Bytes}
use jawohl.Value.{Value}
use jawohl.Schema.Pattern.{Dfa}
use jawohl.Schema.Node.{NodeId}
use jawohl.Schema.Report.{Schema, SchemaError, not_json}
use jawohl.Schema.Compile.State.{Compiler, Lowered, done, failed}
use jawohl.Schema.Compile.Lower.{lower}
use jawohl.Stream.Entry.{Result, parse_complete}
use jawohl.Validate.Numbers.{Floats}

-- `Result<Schema, SchemaError>`, a panic of the parser, and fuel that was spent.
pub data Compiled (A : Type 0) : Type 0 where
  ok : A → Compiled A
  err : SchemaError → Compiled A
  panic : Compiled A
  spent : Compiled A

module _ {F D S : Type 0} (floats : Floats F) (ops : Dfa D S) where
  abbrev pub initial : Value → Compiler F D
  initial value = record {
    nodes = [];
    report = record { compiled = 0; unsupported = [] };
    root_value = value;
    in_progress = [];
  }

  abbrev pub schema_of : Lowered F D NodeId → Compiled (Schema F D)
  schema_of (done root c) = Compiled.ok (record { nodes = c.nodes; root = root; report = c.report })
  schema_of (failed e) = Compiled.err e
  schema_of Lowered.spent = Compiled.spent

  abbrev pub compile_value : ℕ → Result Value → Compiled (Schema F D)
  compile_value fuel (Result.ok value) = schema_of (lower floats ops fuel value [] (initial value))
  compile_value fuel (Result.err e) = Compiled.err (not_json e)
  compile_value fuel Result.panic = Compiled.panic

  unfoldable pub compile : ℕ → Bytes → Compiled (Schema F D)
  compile fuel document = compile_value fuel (parse_complete document)
