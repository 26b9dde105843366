-- ===== src/Pointer.antt =====
-- JSON Pointers: `escape_token` of src/event.rs, `parse_pointer` of src/lib.rs, and the decimal
-- indices that both sides of a pointer use (`usize::to_string`, `str::parse::<usize>`).
pub mod RoundTrip
pub mod Decimal
use jawohl.Prelude.{
  ℕ, zero, suc, ◌+◌, ◌-◌, ◌*◌, ◌/◌, ◌%◌, ◌^◌, Bool, true, false, ◌&&◌, ◌||◌, List, [], ◌∷◌, ◌++◌,
  map, Option, none, some, ltb, leb, ◌==◌, if◌then◌else◌, Bytes, codes,
}

-- `text.contains(c)`
unfoldable pub contains_byte : ℕ → Bytes → Bool
contains_byte c [] = false
contains_byte c (b ∷ bs) = b == c || contains_byte c bs

-- `text.replace(c, by)` for a character `c`
unfoldable pub replace_byte : ℕ → Bytes → Bytes → Bytes
replace_byte c by [] = []
replace_byte c by (b ∷ bs) = (if b == c then by else b ∷ []) ++ replace_byte c by bs

-- `text.replace("ac", by)` for a text of two bytes: from the left, without overlaps
unfoldable pub replace_pair : ℕ → ℕ → ℕ → Bytes → Bytes
replace_pair a c by [] = []
replace_pair a c by (x ∷ []) = x ∷ []
replace_pair a c by (x ∷ y ∷ bs) = elim (x == a && y == c) [
  | true ↦ by ∷ replace_pair a c by bs
  | false ↦ x ∷ replace_pair a c by (y ∷ bs)
]

unfoldable pub escape_token : Bytes → Bytes
unfolding contains_byte replace_byte
escape_token token =
    if contains_byte b'~' token || contains_byte b'/' token
    then replace_byte b'/' (codes "~1") (replace_byte b'~' (codes "~0") token)
    else token

-- `t.replace("~1", "/").replace("~0", "~")`
unfoldable pub unescape_token : Bytes → Bytes
unfolding replace_pair
unescape_token t = replace_pair b'~' b'0' b'~' (replace_pair b'~' b'1' b'/' t)

-- Put a byte in front of the first piece.
abbrev pub in_front : ℕ → List Bytes → List Bytes
in_front b [] = (b ∷ []) ∷ []
in_front b (t ∷ ts) = (b ∷ t) ∷ ts

-- `text.split('/')`
unfoldable pub split_slash : Bytes → List Bytes
split_slash [] = [] ∷ []
split_slash (b ∷ bs) =
    let pieces = split_slash bs in if b == b'/' then [] ∷ pieces else in_front b pieces

unfoldable pub parse_pointer : Bytes → Option (List Bytes)
unfolding split_slash unescape_token
parse_pointer [] = some []
parse_pointer (b ∷ bs) = if b == b'/' then some (map unescape_token (split_slash bs)) else none

-- `n.to_string()` on fuel: a number has at most as many digits as the fuel, if it is below 10 ^ fuel.
unfoldable pub decimal_fuel : ℕ → ℕ → Bytes
decimal_fuel zero n = []
decimal_fuel (suc fuel) n =
    let rest = decimal_fuel fuel (n / 10) in
    if ltb n 10 then (b'0' + n) ∷ [] else rest ++ (b'0' + n % 10) ∷ []

unfoldable pub decimal : ℕ → Bytes
unfolding decimal_fuel
decimal n = decimal_fuel (suc n) n

-- The digits of `text.parse::<usize>()`, with what is read so far; a value that does not fit in 64
-- bits is an error.
unfoldable pub parse_digits : ℕ → Bytes → Option ℕ
parse_digits acc [] = some acc
parse_digits acc (b ∷ bs) =
    let next = parse_digits (acc * 10 + (b - b'0')) bs in
    if leb b'0' b && leb b b'9' && ltb (acc * 10 + (b - b'0')) (2 ^ 64) then next else none

-- `text.parse::<usize>().ok()`: a sign `+` is allowed, and leading zeros are.
unfoldable pub parse_usize : Bytes → Option ℕ
unfolding parse_digits
parse_usize [] = none
parse_usize (b ∷ []) = if b == b'+' then none else parse_digits 0 (b ∷ [])
parse_usize (b ∷ c ∷ bs) = parse_digits 0 (if b == b'+' then c ∷ bs else b ∷ c ∷ bs)
