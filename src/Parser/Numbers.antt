-- ===== src/Parser/Numbers.antt =====
-- src/parser.rs: a number token. A delimiter closes it and is then dispatched as structure.
use jawohl.Prelude.{
  ℕ, Bool, true, false, not, ◌||◌, ◌&&◌, [], ◌∷◌, ◌++◌, Option, none, some, ◌==◌, if◌then◌else◌,
  Bytes,
}
use jawohl.Error.{malformed_number, number_profile_violated}
use jawohl.Utf8.{within}
use jawohl.Value.{number}
use jawohl.Parser.State.{
  NumState, after_sign, zero_digit, int, dot, frac, exp, exp_sign, exp_digits, terminable, idle,
  num, Parser, Outcome, ok, fail,
}
use jawohl.Parser.Structure.{is_blank, attach}

abbrev pub is_digit : ℕ → Bool
is_digit b = within b'0' b'9' b

abbrev pub is_exp : ℕ → Bool
is_exp b = b == b'e' || b == b'E'

-- `to` if the test holds
abbrev when : Bool → NumState → Option NumState → Option NumState
when test to other = if test then some to else other

-- The table of JSON's number grammar.
unfoldable pub num_next : NumState → ℕ → Option NumState
num_next after_sign b = when (b == b'0') zero_digit (when (within b'1' b'9' b) int none)
num_next zero_digit b = when (b == b'.') dot (when (is_exp b) exp none)
num_next int b = when (is_digit b) int (when (b == b'.') dot (when (is_exp b) exp none))
num_next dot b = when (is_digit b) frac none
num_next frac b = when (is_digit b) frac (when (is_exp b) exp none)
num_next exp b = when (b == b'+' || b == b'-') exp_sign (when (is_digit b) exp_digits none)
num_next exp_sign b = when (is_digit b) exp_digits none
num_next exp_digits b = when (is_digit b) exp_digits none

-- A byte that may end a number.
abbrev pub delimits : ℕ → Bool
delimits b = b == b',' || b == b'}' || b == b']' || is_blank b

-- The safe prefix ends at the delimiter, not after it.
unfoldable pub close_number : Bytes → Parser → Parser
close_number text p =
    let q = attach (number (record { text = text })) (record p { tok = idle }) in
    record q { commit = q.offset }

-- `ok true`: the byte belongs to the number. `ok false`: it delimited the number.
unfoldable pub step_number : Bytes → NumState → ℕ → Parser → Outcome Bool
step_number text state b p = elim (num_next state b) [
  | some next ↦
      if p.enforce_plain_decimal && is_exp b
      then fail number_profile_violated p
      else ok true (record p { tok = num (text ++ b ∷ []) next })
  | none ↦
      if not (delimits b) || not (terminable state)
      then fail malformed_number p
      else ok false (close_number text p)
]
