-- ===== src/Tests/Stream.antt =====
-- A stream with a schema at inputs that meet the hypotheses of its theorems.
use mathlib.Core.List.{Memᴰ}
use jawohl.Prelude.{
  ℕ, ◌≡◌, ◌≢◌, inl, refl, true, false, List, [], ◌∷◌, some, none, codes, Bytes, lookup, insert,
  get_elem?,
}
use jawohl.Pointer.{parse_pointer}
use jawohl.Event.{
  Validation, irrecoverably_invalid, Event, path, validation_failed, value_started, ValueKind,
}
use jawohl.Parser.State.{Parser, new, Outcome}
use jawohl.Parser.Feed.{feed}
use jawohl.Parser.Snapshot.{snapshot, open_frame_path}
use jawohl.Schema.Node.{permissive, no_type, shares}
use jawohl.Stream.Status.{is_open_container, status, status_at, descend}
use jawohl.Stream.Touched.{rfind_slash, is_seen, note_seen, above, walk_up, gather, touched_paths}
use jawohl.Stream.Judged.{
  Stream, Pushed, validation_eq, validation, report_path, judge_paths, judge_touched_paths, push,
}
use jawohl.Stream.Judged.Log.{with_events}
use jawohl.Stream.Judged.Pushes.{push_remembers, push_tells_failure}
use jawohl.Validate.Verdict.{fold, is_failure, kind_of}
use jawohl.Validate.Scalars.{check_enum_and_const, check_string}
use jawohl.Validate.Numbers.{NumberProfile, check_type, check_number}
use jawohl.Validate.Judge.{judge}
use jawohl.Validate.Nodes.{Validator, node_for}
use jawohl.Tests.{run, after, start}
use jawohl.Value.{complete}
use jawohl.Parser.Reach.{Reach}
use jawohl.Error.{ParseError, unexpected}
use jawohl.Stream.Judged.{finish_stream}
use jawohl.Stream.Judged.Failures.{push_after_failure, push_never_panics}
use jawohl.Stream.Judged.Settled.{Onward, verdict_stays}
use jawohl.Tests.Validate.{naturals, begins_a}

-- A push with the schemas below; with this definition the judgement unfolds.
run_push : Bytes → Stream ℕ Unit → Pushed ℕ Unit
unfolding push judge_touched_paths judge_paths report_path gather walk_up above rfind_slash
    note_seen is_seen touched_paths path validation node_for judge get_elem? fold check_type
    check_enum_and_const check_string check_number snapshot status status_at descend parse_pointer
    lookup insert is_failure is_open_container open_frame_path kind_of shares validation_eq
run_push = push naturals begins_a 2

-- `{"type": "string"}`
abbrev a_string : Validator ℕ Unit
a_string = record {
  schema = record {
    nodes = record permissive { types = some (record no_type { string = true }) } ∷ [];
    root = 0;
    report = record { compiled = 1; unsupported = [] };
  };
  profile = NumberProfile.plain_decimal;
}

abbrev waiting : Stream ℕ Unit
waiting = record { parser = new; validator = some a_string; reported = [] }

abbrev one_digit : Parser
one_digit = after (feed (codes "1") new)

abbrev refused : Stream ℕ Unit
refused = record {
  parser =
      with_events
        (value_started [] ValueKind.number ∷ validation_failed [] irrecoverably_invalid ∷ [])
        one_digit;
  validator = some a_string;
  reported = ([], irrecoverably_invalid) ∷ [];
}

digit_fed : feed (codes "1") new ≡ Outcome.ok tt one_digit
unfolding run
digit_fed = refl

digit_pushed : push naturals begins_a 2 (codes "1") waiting ≡ Pushed.ok refused
unfolding run run_push
digit_pushed = refl

digit_event : path (value_started [] ValueKind.number) ≡ some []
unfolding path
digit_event = refl

digit_started : Memᴰ (value_started [] ValueKind.number) one_digit.events
unfolding run
digit_started = Memᴰ.head refl

push_remembers_example : lookup [] refused.reported ≡ validation naturals begins_a 2 [] refused
push_remembers_example =
    push_remembers naturals begins_a 2 (codes "1") waiting refused one_digit a_string
      (value_started [] ValueKind.number) [] [] refl digit_fed digit_pushed digit_started
      digit_event (inl refl)

digit_refused : validation naturals begins_a 2 [] refused ≡ some irrecoverably_invalid
unfolding run run_push
digit_refused = refl

refused_fails : is_failure irrecoverably_invalid ≡ true
unfolding is_failure
refused_fails = refl

nothing_remembered : lookup {V = Validation} [] [] ≢ some irrecoverably_invalid
unfolding lookup
nothing_remembered e = cc

push_tells_failure_example : Memᴰ (validation_failed [] irrecoverably_invalid) refused.parser.events
push_tells_failure_example =
    push_tells_failure naturals begins_a 2 (codes "1") waiting refused one_digit a_string
      (value_started [] ValueKind.number) [] [] irrecoverably_invalid refl digit_fed digit_pushed
      digit_started digit_event (inl refl) digit_refused refused_fails nothing_remembered

-- A whole string, then a blank.
abbrev whole : Stream ℕ Unit
whole = record {
  parser = after (feed (codes "\"a\"") start);
  validator = some a_string;
  reported = [];
}

abbrev stream_after : Pushed ℕ Unit → Stream ℕ Unit
stream_after (Pushed.ok s) = s
stream_after _ = waiting

abbrev blank : Stream ℕ Unit
blank = stream_after (push naturals begins_a 2 (codes " ") whole)

whole-Reach : Reach whole.parser
unfolding run
whole-Reach =
    Reach.pushed (codes "\"a\"") (Reach.enforced false (Reach.limited 1024 Reach.fresh)) refl

whole_complete : status [] whole.parser ≡ complete
unfolding run status status_at descend snapshot open_frame_path parse_pointer is_open_container
whole_complete = refl

root_tokens : parse_pointer [] ≡ some []
unfolding parse_pointer
root_tokens = refl

blank_pushed : push naturals begins_a 2 (codes " ") whole ≡ Pushed.ok blank
unfolding run run_push
blank_pushed = refl

blank_closed : is_open_container [] blank.parser ≡ false
unfolding run run_push
blank_closed = refl

verdict_stays_example :
    validation naturals begins_a 2 [] blank ≡ validation naturals begins_a 2 [] whole
verdict_stays_example =
    verdict_stays naturals begins_a 2 [] [] whole-Reach root_tokens tt whole_complete
      (Onward.pushed (codes " ") Onward.now blank_pushed) blank_closed

-- `]` begins no value.
abbrev stuck : Stream ℕ Unit
stuck = record { parser = after (feed (codes "]") start); validator = some a_string; reported = [] }

abbrev begun : Stream ℕ Unit
begun = record { parser = start; validator = some a_string; reported = [] }

abbrev bad_byte : ParseError
bad_byte = record { offset = 0; kind = unexpected 93 "a value" }

begun-fresh : begun.parser.failed ≡ none
unfolding run
begun-fresh = refl

bracket_pushed : push naturals begins_a 2 (codes "]") begun ≡ Pushed.err bad_byte stuck
unfolding run run_push
bracket_pushed = refl

push_after_failure_example :
    ((feed (codes "]") begun.parser ≡ Outcome.err bad_byte stuck.parser)
      × (stuck.reported ≡ begun.reported))
    × (((later : Bytes) → push naturals begins_a 2 later stuck ≡ Pushed.err bad_byte stuck)
        × (finish_stream stuck ≡ Pushed.err bad_byte stuck))
push_after_failure_example =
    push_after_failure naturals begins_a 2 (codes "]") begun stuck bad_byte begun-fresh
      bracket_pushed

push_never_panics_example : push naturals begins_a 2 (codes " ") whole ≢ Pushed.panic
push_never_panics_example = push_never_panics naturals begins_a 2 (codes " ") whole whole-Reach
