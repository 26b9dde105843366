-- ===== src/Stream/Judged.antt =====
-- src/lib.rs: a `Stream` with a schema. What takes fuel is `none` or `spent` when it runs out.
pub mod Log
pub mod Told
pub mod Pushes
pub mod Settled
pub mod Failures
pub mod Profile
use jawohl.Prelude.{
  ℕ, Bool, true, false, ◌&&◌, List, [], ◌∷◌, Option, none, some, if◌then◌else◌, Bytes, lookup,
  insert,
}
use jawohl.Error.{ParseError}
use jawohl.Event.{
  Validation, pending, valid_so_far, valid, invalid, irrecoverably_invalid, Event,
  validation_failed, validation_completed,
}
use jawohl.Pointer.{parse_pointer}
use jawohl.Value.{Value, Syntax, complete}
use jawohl.Parser.State.{
  Parser, new, Outcome, push_event, peek_events, drain_events, set_enforce_plain_decimal,
  set_max_depth,
}
use jawohl.Parser.Feed.{feed, finish}
use jawohl.Parser.Snapshot.{snapshot}
use jawohl.Schema.Node.{NodeId}
use jawohl.Schema.Pattern.{Dfa}
use jawohl.Schema.Report.{LoweringReport, Schema}
use jawohl.Schema.Compile.Entry.{Compiled, compile}
use jawohl.Stream.Status.{descend_from, status}
use jawohl.Stream.Touched.{gather, touched_paths}
use jawohl.Validate.Verdict.{is_failure, is_irrecoverable}
use jawohl.Validate.Numbers.{Floats, NumberProfile}
use jawohl.Validate.Nodes.{Validator, node_for, judge_with}

pub record Stream (F D : Type 0) : Type 0 where
  pub parser : Parser
  pub validator : Option (Validator F D)
  pub reported : List (Bytes × Validation)

-- `Result<(), ParseError>` beside `&mut self`; `spent` is the model's.
pub data Pushed (F D : Type 0) : Type 0 where
  ok : Stream F D → Pushed F D
  err : ParseError → Stream F D → Pushed F D
  panic : Pushed F D
  spent : Pushed F D

-- The derived equality.
unfoldable pub validation_eq : Validation → Validation → Bool
validation_eq pending pending = true
validation_eq valid_so_far valid_so_far = true
validation_eq valid valid = true
validation_eq invalid invalid = true
validation_eq irrecoverably_invalid irrecoverably_invalid = true
validation_eq _ _ = false

-- `before == Some(now)`
abbrev pub is_now : Option Validation → Validation → Bool
is_now none now = false
is_now (some before) now = validation_eq before now

abbrev pub is_complete_at : Syntax → Bool
is_complete_at complete = true
is_complete_at _ = false

-- `profile == NumberProfile::PlainDecimal`
abbrev pub is_plain : NumberProfile → Bool
is_plain NumberProfile.plain_decimal = true
is_plain NumberProfile.exact = false

module _ {F D : Type 0} where
  abbrev pub new_stream : Stream F D
  new_stream = record { parser = new; validator = none; reported = [] }

  abbrev pub with_parser : Parser → Stream F D → Stream F D
  with_parser p s = record s { parser = p }

  abbrev pub with_profile : Option (Validator F D) → NumberProfile → Stream F D → Stream F D
  with_profile none profile s = s
  with_profile (some v) profile s = record s {
    validator = some (record { schema = v.schema; profile = profile });
    parser = set_enforce_plain_decimal (is_plain profile) s.parser;
  }

  unfoldable pub with_number_profile : NumberProfile → Stream F D → Stream F D
  unfolding set_enforce_plain_decimal
  with_number_profile profile s = with_profile s.validator profile s

  unfoldable pub with_max_depth : ℕ → Stream F D → Stream F D
  unfolding set_max_depth
  with_max_depth depth s = with_parser (set_max_depth depth s.parser) s

  abbrev report_of : Option (Validator F D) → Option LoweringReport
  report_of none = none
  report_of (some v) = some v.schema.report

  unfoldable pub lowering_report : Stream F D → Option LoweringReport
  lowering_report s = report_of s.validator

  unfoldable pub changes : Stream F D → List Event × Stream F D
  unfolding drain_events
  changes s = let (es, p) = drain_events s.parser in (es, with_parser p s)

  abbrev returned : Outcome Unit → Stream F D → Pushed F D
  returned (Outcome.ok a p) s = Pushed.ok (with_parser p s)
  returned (Outcome.err e p) s = Pushed.err e (with_parser p s)
  returned Outcome.panic s = Pushed.panic

  unfoldable pub finish_stream : Stream F D → Pushed F D
  finish_stream s = returned (finish s.parser) s

module _ {F D S : Type 0} (floats : Floats F) (ops : Dfa D S) (fuel : ℕ) where
  abbrev pub stream_of : Compiled (Schema F D) → Compiled (Stream F D)
  stream_of (Compiled.ok schema) = Compiled.ok (record {
    parser = set_enforce_plain_decimal true new;
    validator = some (record { schema = schema; profile = NumberProfile.plain_decimal });
    reported = [];
  })
  stream_of (Compiled.err e) = Compiled.err e
  stream_of Compiled.panic = Compiled.panic
  stream_of Compiled.spent = Compiled.spent

  unfoldable pub from_json_schema : Bytes → Compiled (Stream F D)
  unfolding set_enforce_plain_decimal
  from_json_schema schema = stream_of (compile floats ops fuel schema)

  abbrev pub judge_value : Validator F D → NodeId → Option Value → Bool → Option Validation
  judge_value v node none whole = some pending
  judge_value v node (some value) whole = judge_with floats ops fuel v node value whole

  abbrev pub judge_node_of :
      Validator F D → Option (Option NodeId) → Option Value → Bool → Option Validation
  judge_node_of v none value whole = none
  judge_node_of v (some none) value whole = some pending
  judge_node_of v (some (some node)) value whole = judge_value v node value whole

  abbrev pub judge_pointer :
      Validator F D → Bytes → Option (List Bytes) → Parser → Option Validation
  judge_pointer v pointer none p = some pending
  judge_pointer v pointer (some tokens) p =
      judge_node_of v (node_for v.schema.nodes tokens v.schema.root)
        (descend_from tokens (snapshot p)) (is_complete_at (status pointer p))

  abbrev pub validation_of : Option (Validator F D) → Bytes → Parser → Option Validation
  validation_of none pointer p = some pending
  validation_of (some v) pointer p = judge_pointer v pointer (parse_pointer pointer) p

  unfoldable pub validation : Bytes → Stream F D → Option Validation
  validation pointer s = validation_of s.validator pointer s.parser

  abbrev is_lost : Option Validation → Option Bool
  is_lost none = none
  is_lost (some v) = some (is_irrecoverable v)

  unfoldable pub is_irrecoverable_stream : Stream F D → Option Bool
  unfolding validation
  is_irrecoverable_stream s = is_lost (validation [] s)

  abbrev pub told : Bytes → Validation → Bool → Parser → Parser
  told path now whole p =
      if is_failure now
      then push_event (validation_failed path now) p
      else if whole && validation_eq now valid
      then push_event (validation_completed path now) p
      else p

  -- The event of a transition, if it has one.
  unfoldable pub report_path : Bytes → Validation → Stream F D → Stream F D
  report_path path now s = if is_now (lookup path s.reported) now then s else record s {
    reported = insert path now s.reported;
    parser = told path now (is_complete_at (status path s.parser)) s.parser;
  }

  abbrev pub report_verdict : Bytes → Option Validation → Stream F D → Option (Stream F D)
  report_verdict path none s = none
  report_verdict path (some now) s = some (report_path path now s)

  abbrev and_then : Option (Stream F D) → (Stream F D → Option (Stream F D)) → Option (Stream F D)
  and_then none f = none
  and_then (some s) f = f s

  unfoldable pub judge_paths : List Bytes → Stream F D → Option (Stream F D)
  unfolding report_path validation
  judge_paths [] s = some s
  judge_paths (p ∷ ps) s = and_then (report_verdict p (validation p s) s) (λ t. judge_paths ps t)

  abbrev pub judge_touched : Option (Validator F D) → Stream F D → Option (Stream F D)
  judge_touched none s = some s
  judge_touched (some v) s = judge_paths (gather (touched_paths (peek_events s.parser)) []) s

  unfoldable pub judge_touched_paths : Stream F D → Option (Stream F D)
  unfolding judge_paths gather touched_paths
  judge_touched_paths s = judge_touched s.validator s

  abbrev pub judged : Option (Stream F D) → Pushed F D
  judged none = Pushed.spent
  judged (some s) = Pushed.ok s

  abbrev pub after_feed : Outcome Unit → Stream F D → Pushed F D
  after_feed (Outcome.ok a p) s = judged (judge_touched_paths (with_parser p s))
  after_feed (Outcome.err e p) s = Pushed.err e (with_parser p s)
  after_feed Outcome.panic s = Pushed.panic

  unfoldable pub push : Bytes → Stream F D → Pushed F D
  unfolding judge_touched_paths
  push chunk s = after_feed (feed chunk s.parser) s
