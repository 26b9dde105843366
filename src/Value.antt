-- ===== src/Value.antt =====
-- src/value.rs: the partial value tree. A text is the list of its UTF-8 bytes. `Vec<Value>` and
-- `Vec<(String, Value)>` are the types `Values` and `Members` of the block.
use jawohl.Pointer.{parse_usize}
use jawohl.Prelude.{
  ℕ, zero, suc, Bool, true, false, Option, none, some, if◌then◌else◌, ◌≡◌, refl, arith, Bytes,
  bytes_eq,
}

-- How far along a value is, syntactically.
pub data Syntax : Type 0 where
  missing incomplete complete : Syntax

-- A JSON number, stored as its lexeme.
pub record Number : Type 0 where
  pub text : Bytes

mutual
  pub data Value : Type 0 where
    null : Value
    bool : Bool → Value
    number : Number → Value
    string : Bytes → Value
    array : Values → Value
    object : Members → Value
    partial_string : Bytes → Value
    partial_number : Bytes → Value
    partial_literal : Bytes → Value

  pub data Values : Type 0 where
    nil : Values
    cons : Value → Values → Values

  pub data Members : Type 0 where
    end : Members
    member : Bytes → Value → Members → Members

-- Containers report on themselves only.
unfoldable pub is_complete : Value → Bool
is_complete (partial_string _) = false
is_complete (partial_number _) = false
is_complete (partial_literal _) = false
is_complete _ = true

-- `items.push(v)`
unfoldable pub push_item : Values → Value → Values
push_item nil v = cons v nil
push_item (cons x xs) v = cons x (push_item xs v)

-- `members.push((k, v))`
unfoldable pub push_member : Members → Bytes → Value → Members
push_member end k v = member k v end
push_member (member j w ms) k v = member j w (push_member ms k v)

-- `items.len()`
abbrev pub items_len : Values → ℕ
items_len nil = 0
items_len (cons x xs) = suc (items_len xs)

-- `items.is_empty()`
abbrev pub items_empty : Values → Bool
items_empty nil = true
items_empty (cons x xs) = false

-- `items.get(i)`
unfoldable pub get_item : Values → ℕ → Option Value
get_item nil i = none
get_item (cons x xs) zero = some x
get_item (cons x xs) (suc i) = get_item xs i

-- The value of the first member with a name.
unfoldable pub find_member : Bytes → Members → Option Value
find_member name end = none
find_member name (member k v ms) = if bytes_eq k name then some v else find_member name ms

abbrev pub at_index : Option ℕ → Values → Option Value
at_index none items = none
at_index (some i) items = get_item items i

-- The child that one token of a JSON Pointer names.
unfoldable pub child : Value → Bytes → Option Value
unfolding get_item find_member
child (object members) token = find_member token members
child (array items) token = at_index (parse_usize token) items
child _ token = none

pub items_len-push : (xs : Values) (v : Value) → items_len (push_item xs v) ≡ suc (items_len xs)
unfolding push_item
items_len-push nil v = refl
items_len-push (cons x xs) v = omega (arith, items_len-push xs v)
