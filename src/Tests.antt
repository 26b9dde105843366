-- ===== src/Tests.antt =====
-- Runs at concrete inputs, some of which the source's own tests have too, and the theorems at
-- inputs that meet their hypotheses.
mod Validate
mod Compile
mod Stream
use mathlib.Core.List.{flatten}
use jawohl.Prelude.{
  ◌+◌, if◌then◌else◌, true, false, List, [], ◌∷◌, some, none, ◌≡◌, ◌↔◌, ℕ, refl, ap, arith, Bytes,
  codes,
}
use jawohl.Error.{ParseError, malformed_number}
use jawohl.Pointer.{parse_pointer, parse_usize, escape_token, decimal}
use jawohl.Pointer.RoundTrip.{pointer_of, parse-pointer_of}
use jawohl.Value.{child, is_complete, push_item, push_member, incomplete, complete}
use jawohl.Parser.State.{
  Parser, new, Outcome, slot_pointer, slot_token, path_len, push_frame, fail, terminable,
  set_max_depth, set_enforce_plain_decimal, document_complete,
}
use jawohl.Parser.Structure.{
  attach, attach_to, close_container, close_frame, value_kind, arm, begin_value, open_value,
  announce, dispatch, step_structural,
}
use jawohl.Parser.Strings.{
  hex, push_char, escape_byte, combine, step_string, close_string, end_unicode, end_surrogate,
}
use jawohl.Parser.Numbers.{num_next, step_number, close_number}
use jawohl.Parser.Literals.{begins_keyword, is_keyword, literal_value, step_literal}
use jawohl.Parser.Feed.{
  step, emit_progress, step_tok, closable_in, advance, emit_progress_of, feed_bytes, feed, finish,
}
use jawohl.Parser.Snapshot.{outer_slots, snapshot, open_frame_path}
use jawohl.Parser.Completion.{completion_of}
use jawohl.Parser.Latch.{feed-after_failure}
use jawohl.Parser.Valid.{IsValid}
use jawohl.Parser.Reach.{Reach, fresh, limited, enforced, pushed, Reach-IsValid}
use jawohl.Parser.Once.{Run, Run-completions}
use jawohl.Parser.Once.Steps.{completions}
use jawohl.Parser.Paths.{Named, Tells}
use jawohl.Parser.Paths.Steps.{events_name_slots}
use jawohl.Parser.Depth.{Stays, feed-Stays}
use jawohl.Parser.Grammar.{IsJsonNumber, num_scan, ends}
use jawohl.Parser.Grammar.Complete.{accepted_iff}
use jawohl.Parser.Finished.{HoldsFinished}
use jawohl.Parser.Finished.Reached.{Reach-HoldsFinished}
use jawohl.Parser.Stable.Walk.{IsCanonical}
use jawohl.Parser.Stable.Later.{After, complete-stays}
use jawohl.Parser.Stable.Refused.{complete-stays_refused}
use jawohl.Parser.Chunks.{SameOutcome}
use jawohl.Parser.Chunks.Boundaries.{push_all, chunks-irrelevant}
use jawohl.Stream.Status.{is_open_container, status, status_at, descend, descend_from}
use jawohl.Stream.Entry.{Result, complete_json}
use jawohl.Utf8.{well_formed, valid_prefix, encode_utf8}

-- A chunk for a parser; with this definition the whole machine unfolds.
unfoldable pub run : Bytes → Parser → Outcome Unit
unfolding escape_token decimal child is_complete push_item push_member slot_pointer slot_token
    path_len push_frame fail terminable set_max_depth set_enforce_plain_decimal attach attach_to
    close_container close_frame value_kind arm begin_value open_value announce dispatch
    step_structural hex push_char escape_byte combine step_string close_string end_unicode
    end_surrogate num_next step_number close_number begins_keyword is_keyword literal_value
    step_literal step_tok closable_in advance emit_progress_of feed_bytes feed finish outer_slots
    well_formed valid_prefix encode_utf8
run = feed

-- The state after a chunk.
abbrev pub after : Outcome Unit → Parser
after (Outcome.ok _ p) = p
after (Outcome.err e p) = p
after Outcome.panic = new

abbrev query : Parser
query = after (feed (codes "{\"query\":\"rust par") new)

abbrev query_limit : Parser
query_limit = after (feed (codes "ser\",\"limit\":10") query)

query-incomplete : status (codes "/query") query ≡ incomplete
unfolding run status snapshot open_frame_path parse_pointer parse_usize is_open_container
query-incomplete = refl

query-complete : status (codes "/query") query_limit ≡ complete
unfolding run status snapshot open_frame_path parse_pointer parse_usize is_open_container
query-complete = refl

limit-incomplete : status (codes "/limit") query_limit ≡ incomplete
unfolding run status snapshot open_frame_path parse_pointer parse_usize is_open_container
limit-incomplete = refl

abbrev nested_input : Bytes
nested_input = codes "{\"key\":\"value\",\"arr\":[1,2,{\"nested\":\"v"

complete_nested :
    complete_json nested_input
    ≡ Result.ok (codes "{\"key\":\"value\",\"arr\":[1,2,{\"nested\":\"v\"}]}")
unfolding run complete_json completion_of
complete_nested = refl

complete_dangling : complete_json (codes "{\"a\":\"x\\") ≡ Result.ok (codes "{\"a\":\"x\"}")
unfolding run complete_json completion_of
complete_dangling = refl

complete_literal : complete_json (codes "{\"a\": tru") ≡ Result.ok (codes "{\"a\": true}")
unfolding run complete_json completion_of
complete_literal = refl

-- A nested document in flight.
abbrev pub start : Parser
start = set_enforce_plain_decimal false (set_max_depth 1024 new)

abbrev nested : Parser
nested = after (feed nested_input start)

nested-Reach : Reach nested
unfolding run
nested-Reach = pushed nested_input (enforced false (limited 1024 fresh)) refl

Reach-IsValid_example : (nested.failed ≡ none) × IsValid 0 nested
Reach-IsValid_example = Reach-IsValid nested-Reach

Reach-HoldsFinished_example : HoldsFinished nested
Reach-HoldsFinished_example = Reach-HoldsFinished nested-Reach

events_name_slots_example :
    ((b : ℕ) → Tells nested.stack nested.events (step b nested))
    × Named nested.stack nested.events (emit_progress nested)
    × Tells nested.stack nested.events (finish nested)
events_name_slots_example =
    events_name_slots nested (Reach-IsValid nested-Reach).1 (Reach-IsValid nested-Reach).0

-- The third bracket is refused.
abbrev shallow : Parser
shallow = record new { max_depth = 2 }

feed-Stays_example : Stays 2 (feed (codes "[[[") shallow)
feed-Stays_example = feed-Stays 2 (codes "[[[") shallow refl (omega arith, omega arith)

nested-slots : outer_slots nested.stack ≡ codes "arr" ∷ codes "2" ∷ codes "nested" ∷ []
unfolding run
nested-slots = refl

abbrev broken : Parser
broken = after (feed (codes "[01") new)

abbrev at_one : ParseError
at_one = record { offset = 2; kind = malformed_number }

broken-fails : feed (codes "[01") new ≡ Outcome.err at_one broken
unfolding run
broken-fails = refl

feed-after_failure_example :
    ((later : Bytes) → feed later broken ≡ Outcome.err at_one broken)
    × (finish broken ≡ Outcome.err at_one broken)
feed-after_failure_example = feed-after_failure (codes "[01") new broken at_one refl broken-fails

-- The chunks split an escape and a number.
abbrev pieces : List Bytes
pieces = codes "[\"\\u00" ∷ codes "e9\",1" ∷ codes "0]" ∷ []

chunks-irrelevant_example : SameOutcome (push_all pieces new) (feed (flatten pieces) new)
chunks-irrelevant_example = chunks-irrelevant pieces new refl

accepted_iff_example : (ends (num_scan (codes "-10.5e+3")) ≡ true) ↔ IsJsonNumber (codes "-10.5e+3")
accepted_iff_example = accepted_iff (codes "-10.5e+3")

parse-pointer_of_example :
    parse_pointer (pointer_of (codes "a/b" ∷ codes "~1" ∷ [] ∷ []))
    ≡ some (codes "a/b" ∷ codes "~1" ∷ [] ∷ [])
parse-pointer_of_example = parse-pointer_of (codes "a/b" ∷ codes "~1" ∷ [] ∷ [])

-- Two items, the first of which is closed when the second is in flight.
abbrev two_items : Parser
two_items = after (feed (codes "[1,2") start)

abbrev two_items_closed : Parser
two_items_closed = after (feed (codes "]") two_items)

abbrev first_item : List Bytes
first_item = codes "0" ∷ []

two_items-fed : feed (codes "[1,2") start ≡ Outcome.ok tt two_items
unfolding run
two_items-fed = refl

two_items-pushed : feed (codes "]") two_items ≡ Outcome.ok tt two_items_closed
unfolding run
two_items-pushed = refl

two_items-Reach : Reach two_items
two_items-Reach = pushed (codes "[1,2") (enforced false (limited 1024 fresh)) two_items-fed

two_items-After : After two_items two_items_closed
two_items-After = After.pushed {q = two_items} (codes "]") After.now two_items-pushed

some_inj : {x y : ℕ} → some x ≡ some y → x ≡ y
some_inj e = cc

zero-IsCanonical : IsCanonical (codes "0")
unfolding parse_usize decimal
zero-IsCanonical i e = ap decimal (some_inj e)

first_item-complete : status_at first_item two_items ≡ complete
unfolding run status_at descend snapshot open_frame_path parse_usize is_open_container
first_item-complete = refl

complete-stays_example :
    (descend_from first_item (snapshot two_items_closed)
      ≡ descend_from first_item (snapshot two_items))
    × (status_at first_item two_items_closed
        ≡ (if is_open_container first_item two_items_closed then incomplete else complete))
complete-stays_example =
    complete-stays first_item two_items-Reach (zero-IsCanonical, tt) first_item-complete
      two_items-After

-- The number in flight is malformed.
abbrev two_items_refused : Parser
two_items_refused = after (feed (codes "x") two_items)

abbrev at_four : ParseError
at_four = record { offset = 4; kind = malformed_number }

two_items-refuses : feed (codes "x") two_items ≡ Outcome.err at_four two_items_refused
unfolding run
two_items-refuses = refl

complete-stays_refused_example :
    (descend_from first_item (snapshot two_items_refused)
      ≡ descend_from first_item (snapshot two_items))
    × (status_at first_item two_items_refused
        ≡ (if is_open_container first_item two_items_refused then incomplete else complete))
complete-stays_refused_example =
    complete-stays_refused first_item {q = two_items} (codes "x") at_four two_items-Reach
      (zero-IsCanonical, tt) first_item-complete After.now two_items-refuses tt

nested-Run : Run 0 nested
unfolding run
nested-Run = Run.pushed nested_input (Run.enforced false (Run.limited 1024 Run.fresh)) refl

Run-completions_example :
    0 + completions nested.events ≡ (if document_complete nested then 1 else 0)
Run-completions_example = Run-completions nested-Run
