-- ===== src/Parser/Snapshot.antt =====
-- src/parser.rs: the document as it stands, and the path of the open containers.
use jawohl.Prelude.{true, false, List, [], ◌∷◌, ◌++◌, Option, none, some, Bytes}
use jawohl.Pointer.{decimal}
use jawohl.Value.{
  Value, object, array, partial_string, partial_number, partial_literal, push_item, push_member,
  items_len,
}
use jawohl.Parser.State.{Frame, Tok, idle, str, num, lit, Parser, or_default}
use jawohl.Parser.Feed.{stable_prefix}

-- The token in flight as a value. A key is no value.
unfoldable pub token_value : Tok → Option Value
token_value idle = none
token_value (str decoded state true pending) = none
token_value (str decoded state false pending) = some (partial_string (stable_prefix decoded))
token_value (num text state) = some (partial_number text)
token_value (lit text) = some (partial_literal text)

-- A frame, with the value in its slot.
unfoldable pub frame_snapshot : Frame → Option Value → Value
frame_snapshot (Frame.object members pending_key n) none = object members
frame_snapshot (Frame.object members pending_key n) (some v) =
    object (push_member members (or_default pending_key) v)
frame_snapshot (Frame.array items n) none = array items
frame_snapshot (Frame.array items n) (some v) = array (push_item items v)

-- Rebuilt from the innermost frame outwards.
unfoldable pub rebuild : List Frame → Option Value → Option Value
unfolding frame_snapshot
rebuild [] pending = pending
rebuild (frame ∷ below) pending = rebuild below (some (frame_snapshot frame pending))

abbrev pub or_else : Option Value → Option Value → Option Value
or_else none other = other
or_else (some v) other = some v

unfoldable pub snapshot : Parser → Option Value
unfolding rebuild token_value
snapshot p = or_else (rebuild p.stack (token_value p.tok)) p.root

-- The unescaped slot of a frame.
abbrev pub slot_name : Frame → Bytes
slot_name (Frame.object members pending_key n) = or_default pending_key
slot_name (Frame.array items n) = decimal (items_len items)

-- The slots of all frames but the innermost, from the root on.
unfoldable pub outer_slots : List Frame → List Bytes
outer_slots [] = []
outer_slots (frame ∷ below) = outer_slots below ++ slot_name frame ∷ []

abbrev pub open_path : List Frame → Option (List Bytes)
open_path [] = none
open_path (top ∷ below) = some (outer_slots below)

unfoldable pub open_frame_path : Parser → Option (List Bytes)
unfolding outer_slots decimal
open_frame_path p = open_path p.stack
