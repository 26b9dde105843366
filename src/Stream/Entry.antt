-- ===== src/Stream/Entry.antt =====
-- src/lib.rs: `parse_complete` and `complete_json`, over a stream with no schema.
use jawohl.Prelude.{
  [], ◌++◌, Option, none, some, take, drop, length, starts_with, if◌then◌else◌, Bytes,
}
use jawohl.Error.{ParseError, unexpected_end_of_input}
use jawohl.Value.{Value}
use jawohl.Parser.State.{new, Outcome, ◌>>=◌, document_complete}
use jawohl.Parser.Feed.{feed, finish}
use jawohl.Parser.Snapshot.{snapshot}
use jawohl.Parser.Completion.{Completion, completion}

-- The result of an entry point, whose stream is dropped.
pub data Result (A : Type 0) : Type 0 where
  ok : A → Result A
  err : ParseError → Result A
  panic : Result A

abbrev or_end_of_input : Option Value → Result Value
or_end_of_input (some v) = Result.ok v
or_end_of_input none = Result.err (record { offset = 0; kind = unexpected_end_of_input })

abbrev pub finished : Bytes → Outcome Unit → Result Value
finished input (Outcome.err e p) = Result.err e
finished input Outcome.panic = Result.panic
finished input (Outcome.ok _ p) =
    if document_complete p
    then or_end_of_input (snapshot p)
    else Result.err (record { offset = length input; kind = unexpected_end_of_input })

unfoldable pub parse_complete : Bytes → Result Value
unfolding document_complete
parse_complete input = finished input (feed input new >>= λ _ p. finish p)

-- `out.push_str(..)` for the three parts of a plan
abbrev pub assemble : Bytes → Completion → Bytes
assemble input plan = take plan.keep input ++ (plan.tail ++ plan.closers)

abbrev pub completed : Bytes → Outcome Unit → Result Bytes
completed input (Outcome.err e p) = Result.err e
completed input Outcome.panic = Result.panic
completed input (Outcome.ok _ p) = Result.ok (assemble input (completion p))

unfoldable pub complete_json : Bytes → Result Bytes
complete_json input = completed input (feed input new)

-- `completed.strip_prefix(input).unwrap_or("")`
abbrev suffix_of : Bytes → Result Bytes → Result Bytes
suffix_of input (Result.ok out) =
    Result.ok (if starts_with input out then drop (length input) out else [])
suffix_of input (Result.err e) = Result.err e
suffix_of input Result.panic = Result.panic

unfoldable pub get_closing_string_for_partial_json : Bytes → Result Bytes
unfolding starts_with
get_closing_string_for_partial_json input = suffix_of input (complete_json input)
