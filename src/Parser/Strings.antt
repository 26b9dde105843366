-- ===== src/Parser/Strings.antt =====
-- src/parser.rs: a string token, byte by byte. `\u` escapes may form a surrogate pair.
use jawohl.Prelude.{
  ℕ, ◌+◌, ◌-◌, ◌*◌, ◌%◌, ◌^◌, Bool, List, [], ◌∷◌, ◌++◌, Option, none, some, ltb, ◌==◌,
  if◌then◌else◌, Bytes,
}
use jawohl.Error.{bad_escape, bad_unicode_escape, bad_surrogate, invalid_utf8, control_in_string}
use jawohl.Utf8.{within, well_formed, from_u32, encode_utf8}
use jawohl.Value.{string}
use jawohl.Parser.State.{
  colon, Frame, object, StrState, raw, backslash, unicode, surrogate_backslash, surrogate_u,
  surrogate_hex, idle, str, Parser, Outcome, ok, panic, fail,
}
use jawohl.Parser.Structure.{attach}

unfoldable pub hex : ℕ → Option ℕ
hex b =
    if within b'0' b'9' b
    then some (b - b'0')
    else if within b'a' b'f' b
    then some (b - b'a' + 10)
    else if within b'A' b'F' b
    then some (b - b'A' + 10)
    else none

unfoldable pub push_char : Bytes → ℕ → Bytes
push_char buf c = buf ++ encode_utf8 c

-- A finished key is kept in its object's frame.
abbrev pub set_pending_key : Bytes → List Frame → List Frame
set_pending_key s (object members _ n ∷ below) = object members (some s) n ∷ below
set_pending_key s stack = stack

-- The closing quote. The bytes are taken out of the token first.
unfoldable pub close_string : Bytes → Bool → ℕ → Parser → Outcome Unit
close_string decoded is_key pending p =
    if well_formed decoded
    then (if is_key
        then ok tt
            (record p { tok = idle; stack = set_pending_key decoded p.stack; expect = colon })
        else ok tt (attach (string decoded) (record p { tok = idle })))
    else fail invalid_utf8 (record p { tok = str [] raw is_key pending })

-- What `\b` stands for, but for `\u`.
unfoldable pub escape_byte : ℕ → Option ℕ
escape_byte b =
    if b == b'"'
    then some b'"'
    else if b == b'\\'
    then some b'\\'
    else if b == b'/'
    then some b'/'
    else if b == b'b'
    then some 0x08
    else if b == b'f'
    then some 0x0c
    else if b == b'n'
    then some b'\n'
    else if b == b'r'
    then some b'\r'
    else if b == b't'
    then some b'\t'
    else none

abbrev pub is_high : ℕ → Bool
is_high cp = within 0xd800 0xdbff cp

abbrev pub is_low : ℕ → Bool
is_low cp = within 0xdc00 0xdfff cp

-- The scalar value of a surrogate pair.
unfoldable pub combine : ℕ → ℕ → ℕ
combine hi lo = 0x10000 + (hi - 0xd800) * 2 ^ 10 + (lo - 0xdc00)

-- The four digits of `\uXXXX` are read. The `unwrap` of the source would panic on a surrogate.
unfoldable pub end_unicode : ℕ → Bytes → Bool → ℕ → Parser → Outcome Unit
unfolding from_u32
end_unicode cp decoded is_key pending p =
    if is_high cp
    then ok tt (record p { tok = str decoded (surrogate_backslash cp) is_key (pending + 1) })
    else if is_low cp
    then fail bad_surrogate p
    else elim (from_u32 cp) [
      | none ↦ panic
      | some c ↦ ok tt (record p { tok = str (push_char decoded c) raw is_key 0 })
    ]

-- The low half of a pair is read.
unfoldable pub end_surrogate : ℕ → ℕ → Bytes → Bool → Parser → Outcome Unit
unfolding from_u32
end_surrogate hi lo decoded is_key p =
    if is_low lo
    then elim (from_u32 (combine hi lo)) [
      | none ↦ fail bad_surrogate p
      | some c ↦ ok tt (record p { tok = str (push_char decoded c) raw is_key 0 })
    ]
    else fail bad_surrogate p

unfoldable pub step_string : StrState → Bytes → Bool → ℕ → ℕ → Parser → Outcome Unit
step_string raw decoded is_key pending b p =
    if b == b'"'
    then close_string decoded is_key pending p
    else if b == b'\\'
    then ok tt (record p { tok = str decoded backslash is_key 1 })
    else if ltb b 0x20
    then fail (control_in_string b) p
    else ok tt (record p { tok = str (decoded ++ b ∷ []) raw is_key pending })
step_string backslash decoded is_key pending b p =
    if b == b'u'
    then ok tt (record p { tok = str decoded (unicode 0 0) is_key 2 })
    else elim (escape_byte b) [
      | some c ↦ ok tt (record p { tok = str (decoded ++ c ∷ []) raw is_key 0 })
      | none ↦ fail (bad_escape b) p
    ]
step_string (unicode n acc) decoded is_key pending b p = elim (hex b) [
  | none ↦ fail (bad_unicode_escape b) p
  | some d ↦
      if ltb (n + 1) 4
      then ok tt
          (record p { tok = str decoded (unicode (n + 1) (acc * 16 + d)) is_key (pending + 1) })
      else end_unicode ((acc * 16 + d) % 2 ^ 16) decoded is_key pending p
]
step_string (surrogate_backslash hi) decoded is_key pending b p =
    if b == b'\\'
    then ok tt (record p { tok = str decoded (surrogate_u hi) is_key (pending + 1) })
    else fail bad_surrogate p
step_string (surrogate_u hi) decoded is_key pending b p =
    if b == b'u'
    then ok tt (record p { tok = str decoded (surrogate_hex hi 0 0) is_key (pending + 1) })
    else fail bad_surrogate p
step_string (surrogate_hex hi n acc) decoded is_key pending b p = elim (hex b) [
  | none ↦ fail (bad_unicode_escape b) p
  | some d ↦
      if ltb (n + 1) 4
      then ok tt (record p {
        tok = str decoded (surrogate_hex hi (n + 1) (acc * 16 + d)) is_key (pending + 1);
      })
      else end_surrogate hi ((acc * 16 + d) % 2 ^ 16) decoded is_key p
]
