-- ===== src/Utf8.antt =====
-- The parts of Rust's `str` and `char` that src/parser.rs relies on: well-formed UTF-8 (the
-- Unicode standard's table 3-7), `from_utf8`, `valid_up_to`, `char::from_u32` and `encode_utf8`.
use jawohl.Prelude.{
  ℕ, zero, suc, ◌+◌, ◌/◌, ◌%◌, Bool, true, false, ◌&&◌, ◌||◌, [], ◌∷◌, Option, none, some, ltb, leb,
  ◌==◌, if◌then◌else◌, Bytes,
}

-- `lo ≤ b ≤ hi`
abbrev pub within : ℕ → ℕ → ℕ → Bool
within lo hi b = leb lo b && leb b hi

-- A continuation byte.
abbrev continues : ℕ → Bool
continues b = within 0x80 0xbf b

-- May `c` follow the lead byte `b` of a character of two, three or four bytes?
abbrev second : ℕ → ℕ → Bool
second b c =
    if b == 0xe0
    then within 0xa0 0xbf c
    else if b == 0xed
    then within 0x80 0x9f c
    else if b == 0xf0
    then within 0x90 0xbf c
    else if b == 0xf4
    then within 0x80 0x8f c
    else continues c

-- The bytes of the well-formed character at the front, less one; none where there is no such.
unfoldable pub char_rest : Bytes → Option ℕ
char_rest [] = none
char_rest (b ∷ []) = if leb b 0x7f then some 0 else none
char_rest (b ∷ c ∷ []) =
    if leb b 0x7f then some 0 else if within 0xc2 0xdf b && continues c then some 1 else none
char_rest (b ∷ c ∷ d ∷ []) =
    if leb b 0x7f
    then some 0
    else if within 0xc2 0xdf b && continues c
    then some 1
    else if within 0xe0 0xef b && second b c && continues d
    then some 2
    else none
char_rest (b ∷ c ∷ d ∷ e ∷ bs) =
    if leb b 0x7f
    then some 0
    else if within 0xc2 0xdf b && continues c
    then some 1
    else if within 0xe0 0xef b && second b c && continues d
    then some 2
    else if within 0xf0 0xf4 b && second b c && continues d && continues e
    then some 3
    else none

-- The longest well-formed prefix, `&bytes[..valid_up_to]`; the number counts the bytes that still
-- belong to the character at hand.
unfoldable pub valid_from : ℕ → Bytes → Bytes
valid_from n [] = []
valid_from (suc n) (b ∷ bs) = b ∷ valid_from n bs
valid_from zero (b ∷ bs) = elim (char_rest (b ∷ bs)) [ none ↦ [] | some n ↦ b ∷ valid_from n bs ]

unfoldable pub valid_prefix : Bytes → Bytes
unfolding valid_from char_rest
valid_prefix = valid_from zero

-- Does `String::from_utf8` return `Ok`?
unfoldable pub well_formed_from : ℕ → Bytes → Bool
well_formed_from zero [] = true
well_formed_from (suc n) [] = false
well_formed_from (suc n) (b ∷ bs) = well_formed_from n bs
well_formed_from zero (b ∷ bs) = elim (char_rest (b ∷ bs)) [
  | none ↦ false
  | some n ↦ well_formed_from n bs
]

unfoldable pub well_formed : Bytes → Bool
unfolding well_formed_from char_rest
well_formed = well_formed_from zero

-- `char::from_u32`
unfoldable pub from_u32 : ℕ → Option ℕ
from_u32 cp = if within 0xd800 0xdfff cp || ltb 0x10ffff cp then none else some cp

-- `encode_utf8` of a code point
unfoldable pub encode_utf8 : ℕ → Bytes
encode_utf8 c =
    if ltb c 0x80
    then c ∷ []
    else if ltb c 0x800
    then (0xc0 + c / 0x40) ∷ (0x80 + c % 0x40) ∷ []
    else if ltb c 0x10000
    then (0xe0 + c / 0x1000) ∷ (0x80 + c / 0x40 % 0x40) ∷ (0x80 + c % 0x40) ∷ []
    else (0xf0 + c / 0x40000)
      ∷ (0x80 + c / 0x1000 % 0x40)
      ∷ (0x80 + c / 0x40 % 0x40)
      ∷ (0x80 + c % 0x40)
      ∷ []
