-- ===== src/Parser/Structure.antt =====
-- src/parser.rs: values are attached to their container, containers are closed, and the bytes
-- between tokens are dispatched.
use jawohl.Prelude.{
  ℕ, Bool, true, false, List, [], ◌∷◌, Option, none, some, ◌||◌, ◌==◌, if◌then◌else◌, take,
}
use jawohl.Error.{unexpected, mismatched_close, unbalanced_close, trailing_content}
use jawohl.Event.{ValueKind, value_started, value_completed, document_completed}
use jawohl.Utf8.{within}
use jawohl.Value.{Value, nil, end, push_item, push_member, items_empty}
use jawohl.Parser.State.{
  Expect, key_or_end, key, colon, comma_or_end, done, Frame, object, array, raw, after_sign,
  zero_digit, int, Tok, str, num, lit, Parser, Outcome, ok, ◌>>=◌, fail, or_default, path_len,
  slot_pointer, push_event, push_frame,
}

-- A blank of JSON.
abbrev pub is_blank : ℕ → Bool
is_blank b = b == b' ' || b == b'\t' || b == b'\n' || b == b'\r'

-- The finished value goes to the innermost frame, or becomes the root.
unfoldable pub attach_to : List Frame → Value → Parser → Parser
attach_to (object members pending_key n ∷ below) v p = record p {
  stack = object (push_member members (or_default pending_key) v) none n ∷ below;
  expect = comma_or_end;
}
attach_to (array items n ∷ below) v p = record p {
  stack = array (push_item items v) n ∷ below;
  expect = comma_or_end;
}
attach_to [] v p = push_event document_completed (record p { root = some v; expect = done })

unfoldable pub attach : Value → Parser → Parser
attach v p = attach_to p.stack v (push_event (value_completed (slot_pointer p) v) p)

abbrev pub frame_value : Frame → Value
frame_value (object members _ _) = Value.object members
frame_value (array items _) = Value.array items

abbrev pub open_byte : Frame → ℕ
open_byte (object _ _ _) = b'{'
open_byte (array _ _) = b'['

unfoldable pub close_frame : List Frame → ℕ → Parser → Outcome Unit
close_frame [] b p = fail (unbalanced_close b) p
close_frame (frame ∷ below) b p =
    let q = record p { stack = below; path_prefix = take (path_len frame) p.path_prefix } in
    let want = if open_byte frame == b'{' then b'}' else b']' in
    if b == want
    then ok tt (attach (frame_value frame) q)
    else fail (mismatched_close b (open_byte frame)) q

unfoldable pub close_container : ℕ → Parser → Outcome Unit
close_container b p = close_frame p.stack b p

-- Is the innermost frame an array with no item?
abbrev pub in_empty_array : List Frame → Bool
in_empty_array (array items _ ∷ below) = items_empty items
in_empty_array _ = false

-- The kind of value that a byte begins.
unfoldable pub value_kind : ℕ → Option ValueKind
value_kind b =
    if b == b'{'
    then some ValueKind.object
    else if b == b'['
    then some ValueKind.array
    else if b == b'"'
    then some ValueKind.string
    else if b == b'-' || within b'0' b'9' b
    then some ValueKind.number
    else if b == b't' || b == b'f'
    then some ValueKind.bool
    else if b == b'n'
    then some ValueKind.null
    else none

abbrev start_tok : Tok → Parser → Outcome Unit
start_tok t p = ok tt (record p { tok = t })

abbrev push_then : (ℕ → Frame) → Expect → Parser → Outcome Unit
push_then make next p = push_frame make p >>= λ _ q. ok tt (record q { expect = next })

-- The start of a value is announced before it is dispatched.
unfoldable pub announce : ℕ → Parser → Parser
announce b p = elim (value_kind b) [
  | none ↦ p
  | some kind ↦ push_event (value_started (slot_pointer p) kind) (record p { reported_prefix = 0 })
]

-- The arms of the `match` in `begin_value`.
pub data Arm : Type 0 where
  brace bracket close_bracket quote minus zero_byte digit letter other : Arm

unfoldable pub arm : ℕ → Arm
arm b =
    if b == b'{'
    then brace
    else if b == b'['
    then bracket
    else if b == b']'
    then close_bracket
    else if b == b'"'
    then quote
    else if b == b'-'
    then minus
    else if b == b'0'
    then zero_byte
    else if within b'1' b'9' b
    then digit
    else if b == b't' || b == b'f' || b == b'n'
    then letter
    else other

-- What each arm does with the byte.
unfoldable pub open_value : Arm → ℕ → Parser → Outcome Unit
open_value brace b p = push_then (object end none) key_or_end p
open_value bracket b p = push_then (array nil) Expect.value p
open_value close_bracket b p =
    if in_empty_array p.stack then close_container b']' p else fail (unexpected b "a value") p
open_value quote b p = start_tok (str [] raw false 0) p
open_value minus b p = start_tok (num (b'-' ∷ []) after_sign) p
open_value zero_byte b p = start_tok (num (b'0' ∷ []) zero_digit) p
open_value digit b p = start_tok (num (b ∷ []) int) p
open_value letter b p = start_tok (lit (b ∷ [])) p
open_value other b p = fail (unexpected b "a value") p

unfoldable pub begin_value : ℕ → Parser → Outcome Unit
begin_value b p = open_value (arm b) b (announce b p)

-- After `,` an object wants a key.
abbrev pub after_comma : List Frame → Expect
after_comma (object _ _ _ ∷ below) = key
after_comma _ = Expect.value

unfoldable pub dispatch : Expect → ℕ → Parser → Outcome Unit
dispatch Expect.value b p = begin_value b p
dispatch key_or_end b p =
    if b == b'"'
    then start_tok (str [] raw true 0) p
    else if b == b'}'
    then close_container b'}' p
    else fail (unexpected b "a key or `}`") p
dispatch key b p =
    if b == b'"' then start_tok (str [] raw true 0) p else fail (unexpected b "a key") p
dispatch colon b p =
    if b == b':' then ok tt (record p { expect = Expect.value }) else fail (unexpected b "`:`") p
dispatch comma_or_end b p =
    if b == b','
    then ok tt (record p { expect = after_comma p.stack })
    else if b == b'}' || b == b']'
    then close_container b p
    else fail (unexpected b "`,` or a closing bracket") p
dispatch done b p = fail (trailing_content b) p

unfoldable pub step_structural : ℕ → Parser → Outcome Unit
step_structural b p = if is_blank b then ok tt p else dispatch p.expect b p
