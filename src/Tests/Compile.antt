-- ===== src/Tests/Compile.antt =====
-- The compiler's theorems at inputs that meet their hypotheses.
use jawohl.Prelude.{
  ℕ, zero, suc, sym, false, starts_with, get_elem?, ◌≤◌, ◌≡◌, ◌≢◌, refl, arith, true, [], ◌∷◌, some,
  none, Bytes, bytes_eq, codes, lookup, insert, remove, set,
}
use jawohl.Pointer.{parse_usize}
use jawohl.Value.{string, partial_string, Value, Members, end, member, find_member}
use jawohl.Parser.State.{new, set_enforce_plain_decimal, document_complete}
use jawohl.Parser.Snapshot.{snapshot}
use jawohl.Schema.Node.{permissive}
use jawohl.Schema.Report.{Schema, Reason, Unsupported}
use jawohl.Schema.Keyword.{keyword_of}
use jawohl.Schema.Compile.State.{Compiler, Lowered, pointer_into, note, begin_node, end_node}
use jawohl.Schema.Compile.Leaves.{u64_at}
use jawohl.Schema.Compile.Lower.{
  lower, lower_value, lower_object, lower_members, lower_keys, apply_keyword,
}
use jawohl.Schema.Compile.Entry.{Compiled, compile}
use jawohl.Schema.Compile.Arena.Nodes.{compile-IsClosed, IsClosed}
use jawohl.Schema.Compile.Accounted.{obligations}
use jawohl.Schema.Compile.Accounted.Documents.{enforced, unenforced}
use jawohl.Schema.Compile.Ends.{IsRefFree, size}
use jawohl.Schema.Compile.Ends.Lowering.{compile_ends}
use jawohl.Schema.Compile.Loops.{lower_self_reference}
use jawohl.Stream.Entry.{Result, parse_complete}
use jawohl.Tests.{run}
use mathlib.Core.Path.{subst}
use mathlib.Core.Option.{some-injective}
use mathlib.Core.List.{Memᴰ}
use jawohl.Event.{Validation, irrecoverably_invalid}
use jawohl.Schema.Pattern as Patterns
use jawohl.Schema.Compile.Leaves.{set_pattern}
use jawohl.Validate.Verdict.{fold, is_failure}
use jawohl.Validate.Scalars.{check_enum_and_const, check_string}
use jawohl.Validate.Numbers.{NumberProfile, check_type, check_number}
use jawohl.Validate.Judge.{judge}
use jawohl.Validate.Returns.{in_place}
use jawohl.Validate.Nodes.{node_for}
use jawohl.Validate.Nodes.Bounds.{node_for_in_range}
use jawohl.Schema.Compile.Arena.{OptionIn}
use mathlib.Core.Option.{Option}
use jawohl.Stream.Judged.{Stream, from_json_schema, with_number_profile}
use jawohl.Stream.Judged.Profile.{Life, Matches, Life-Matches}
use jawohl.Validate.Early.Compiled.{Falls, compiled_rejects}
use jawohl.Tests.Validate.{
  naturals, begins_a, begins, begins-EndsDead, begins-IsUndecided, at_start,
}

abbrev document : Bytes
document = codes "{\"minLength\":3,\"if\":true}"

abbrev document_value : Value
document_value = Value.object (
    member (codes "minLength") (Value.number (record { text = codes "3" }))
      (member (codes "if") (Value.bool true) end))

document_parsed : parse_complete document ≡ Result.ok document_value
unfolding run parse_complete document_complete snapshot
document_parsed = refl

abbrev document_schema : Schema ℕ Unit
document_schema = record {
  nodes = record permissive { min_length = some 3 } ∷ [];
  root = 0;
  report = record {
    compiled = 1;
    unsupported =
        record { location = codes "/if"; keyword = codes "if"; reason = Reason.conditional } ∷ [];
  };
}

document_compiled : compile naturals begins_a 10 document ≡ Compiled.ok document_schema
unfolding run compile parse_complete document_complete snapshot lower lower_value lower_object
    lower_members lower_keys apply_keyword u64_at keyword_of lookup parse_usize begin_node end_node
    insert remove set note find_member
document_compiled = refl

compile-IsClosed_example : IsClosed naturals begins_a document_schema
compile-IsClosed_example =
    compile-IsClosed naturals begins_a 10 document document_schema document_compiled

-- What is due for the document: one keyword is enforced, and one entry is listed.
document-due :
    (entry : Unsupported → ℕ)
    → (enforced naturals begins_a document_value ≡ 1)
      × (unenforced naturals begins_a entry document_value
          ≡ entry (record {
            location = codes "/if";
            keyword = codes "if";
            reason = Reason.conditional;
          }))
unfolding obligations keyword_of lookup parse_usize find_member bytes_eq
document-due entry = (refl, omega arith)

document-IsRefFree : IsRefFree document_value
unfolding IsRefFree find_member bytes_eq
document-IsRefFree = (refl, (tt, (tt, tt)))

document_fits : size document_value ≤ 10
unfolding size
document_fits = omega arith

compile_ends_example : compile naturals begins_a 10 document ≢ Compiled.spent
compile_ends_example =
    compile_ends naturals begins_a 10 document document_value document_parsed document-IsRefFree
      document_fits

-- `{"$ref": "#"}`
abbrev self_members : Members
self_members = member (codes "$ref") (Value.string (codes "#")) end

abbrev self_compiler : Compiler ℕ Unit
self_compiler = record {
  nodes = [];
  report = record { compiled = 0; unsupported = [] };
  root_value = Value.object self_members;
  in_progress = [];
}

self_ref : find_member (codes "$ref") self_members ≡ some (Value.string (codes "#"))
unfolding find_member bytes_eq
self_ref = refl

self_target : pointer_into (Value.object self_members) [] ≡ some (Value.object self_members)
unfolding pointer_into
self_target = refl

self_fresh : lookup {V = ℕ} [] [] ≡ none
unfolding lookup
self_fresh = refl

lower_self_reference_example :
    lower naturals begins_a 1000 (Value.object self_members) [] self_compiler ≡ Lowered.spent
lower_self_reference_example =
    lower_self_reference naturals begins_a self_members [] self_ref 1000 [] self_compiler
      self_target self_fresh

no_member : {child : ℕ} → Memᴰ child [] → ⊥
no_member m = elim m [ ]

-- `{"pattern": "^a"}`
abbrev anchored : Bytes
anchored = codes "{\"pattern\":\"^a\"}"

abbrev anchored_schema : Schema ℕ Unit
anchored_schema = record {
  nodes = record permissive { pattern = some begins } ∷ [];
  root = 0;
  report = record { compiled = 1; unsupported = [] };
}

anchored_compiled : compile naturals begins_a 10 anchored ≡ Compiled.ok anchored_schema
unfolding run compile parse_complete document_complete snapshot lower lower_value lower_object
    lower_members lower_keys apply_keyword set_pattern Patterns.compile keyword_of lookup begin_node
    end_node insert remove set find_member starts_with
anchored_compiled = refl

anchored-Falls : Falls anchored_schema.nodes (λ id. 0)
unfolding get_elem?
anchored-Falls zero n e child m =
    absurd (no_member (subst (λ x. Memᴰ child (in_place x)) (sym (some-injective _ n e)) m))
anchored-Falls (suc i) n e child m = cc

anchored_rejected :
    judge naturals begins_a NumberProfile.exact anchored_schema.nodes 1 0
      (partial_string (codes "x"))
      false
    ≡ some irrecoverably_invalid
unfolding judge get_elem? fold check_type check_enum_and_const check_string check_number
    Patterns.prefix_is_live
anchored_rejected = refl

compiled_rejects_example :
    (verdict : Validation) × (judge naturals begins_a NumberProfile.exact anchored_schema.nodes 1 0
        (string (codes "xa"))
        true
      ≡ some verdict)
    × (is_failure verdict ≡ true)
compiled_rejects_example =
    compiled_rejects naturals begins_a at_start begins-EndsDead NumberProfile.exact 10 anchored
      anchored_schema (λ id. 0) (codes "x") (codes "a") anchored_compiled (begins-IsUndecided, tt)
      anchored-Falls 1 (omega arith) anchored_rejected

node_for_in_range_example :
    (node : Option ℕ) × ((node_for anchored_schema.nodes (codes "a" ∷ []) 0 ≡ some node)
      × OptionIn 1 node)
node_for_in_range_example =
    node_for_in_range naturals begins_a 10 anchored anchored_schema anchored_compiled
      (codes "a" ∷ [])

-- A stream opened with the schema.
abbrev opened : Stream ℕ Unit
opened = record {
  parser = set_enforce_plain_decimal true new;
  validator = some (record { schema = anchored_schema; profile = NumberProfile.plain_decimal });
  reported = [];
}

anchored-opened : from_json_schema naturals begins_a 10 anchored ≡ Compiled.ok opened
unfolding from_json_schema
anchored-opened = rw anchored_compiled refl

Life-Matches_example : Matches naturals begins_a 10 (with_number_profile NumberProfile.exact opened)
Life-Matches_example =
    Life-Matches naturals begins_a 10
      (Life.profiled NumberProfile.exact (Life.opened anchored anchored-opened))
