-- ===== src/Stream/Judged/Log.antt =====
-- What the answers of a stream depend on: its log of events is not among it.
use jawohl.Prelude.{ℕ, List, Option, none, some, true, ◌≡◌, refl, ap, arith, Bytes}
use jawohl.Event.{Validation, Event}
use jawohl.Value.{Value}
use jawohl.Pointer.{parse_pointer}
use jawohl.Parser.State.{Parser}
use jawohl.Parser.Snapshot.{snapshot, open_frame_path}
use jawohl.Schema.Pattern.{Dfa}
use jawohl.Stream.Status.{status, status_at, status_of, status_for, descend_from, is_open_container}
use jawohl.Stream.Judged.{
  validation_eq, validation_of, is_complete_at, judge_pointer, judge_node_of,
}
use jawohl.Validate.Numbers.{Floats}
use jawohl.Validate.Nodes.{Validator, node_for}

abbrev pub with_events : List Event → Parser → Parser
with_events es p = record p { events = es }

status_of-with_events :
    (tokens : List Bytes) (es : List Event) (p : Parser) (v : Option Value)
    → status_of tokens (with_events es p) v ≡ status_of tokens p v
unfolding is_open_container open_frame_path
status_of-with_events tokens es p none = refl
status_of-with_events tokens es p (some v) = refl

status_for-with_events :
    (tokens : Option (List Bytes)) (es : List Event) (p : Parser)
    → status_for tokens (with_events es p) ≡ status_for tokens p
unfolding status_at snapshot
status_for-with_events none es p = refl
status_for-with_events (some tokens) es p =
    status_of-with_events tokens es p (descend_from tokens (snapshot p))

pub status-with_events :
    (q : Bytes) (es : List Event) (p : Parser) → status q (with_events es p) ≡ status q p
unfolding status
status-with_events q es p = status_for-with_events (parse_pointer q) es p

pub validation_eq-≡ : (a b : Validation) → validation_eq a b ≡ true → a ≡ b
unfolding validation_eq
validation_eq-≡ a b e = ground arith

module _ {F D S : Type 0} (floats : Floats F) (ops : Dfa D S) (fuel : ℕ) where
  judge_pointer-with_events :
      (v : Validator F D) (q : Bytes) (tokens : Option (List Bytes)) (es : List Event) (p : Parser)
      → judge_pointer floats ops fuel v q tokens (with_events es p)
        ≡ judge_pointer floats ops fuel v q tokens p
  unfolding snapshot
  judge_pointer-with_events v q none es p = refl
  judge_pointer-with_events v q (some tokens) es p =
      ap
        (λ x.
          judge_node_of floats ops fuel v (node_for v.schema.nodes tokens v.schema.root)
            (descend_from tokens (snapshot p)) (is_complete_at x))
        (status-with_events q es p)

  pub validation-with_events :
      (v : Option (Validator F D)) (q : Bytes) (es : List Event) (p : Parser)
      → validation_of floats ops fuel v q (with_events es p) ≡ validation_of floats ops fuel v q p
  validation-with_events none q es p = refl
  validation-with_events (some v) q es p = judge_pointer-with_events v q (parse_pointer q) es p
