-- ===== src/Parser/Grammar.antt =====
-- The number states of src/parser.rs against JSON's grammar, number = [ minus ] int [ frac ] [ exp ].
pub mod Sound
pub mod Complete
use jawohl.Prelude.{
  ℕ, ◌≡◌, refl, sym, ap, ◌∙◌, ◌↔◌, ◌⊎◌, inl, inr, Bool, true, false, ◌&&◌, ◌||◌, List, [], ◌∷◌,
  ◌++◌, Option, some, none, arith, ◌==◌, if◌then◌else◌, ==_iff, Bool-cases, append-nil,
  append_assoc, Bytes,
}
use jawohl.Utf8.{within}
use jawohl.Parser.State.{
  NumState, after_sign, zero_digit, int, dot, frac, exp, exp_sign, exp_digits, terminable,
}
use jawohl.Parser.Numbers.{is_digit, is_exp, num_next}

abbrev pub AllDigits : Bytes → Type 0
AllDigits [] = Unit
AllDigits (b ∷ bs) = (is_digit b ≡ true) × AllDigits bs

-- At least one digit.
abbrev pub IsDigits : Bytes → Type 0
IsDigits [] = ⊥
IsDigits (b ∷ bs) = (is_digit b ≡ true) × AllDigits bs

pub data IsSign : Bytes → Type 0 where
  plus : IsSign []
  minus : IsSign (b'-' ∷ [])

-- No leading zero.
pub data IsInt : Bytes → Type 0 where
  zero_alone : IsInt (b'0' ∷ [])
  digits : {d : ℕ} {ds : Bytes} → within b'1' b'9' d ≡ true → AllDigits ds → IsInt (d ∷ ds)

pub data IsFrac : Bytes → Type 0 where
  no_frac : IsFrac []
  point : {ds : Bytes} → IsDigits ds → IsFrac (b'.' ∷ ds)

pub data IsExp : Bytes → Type 0 where
  no_exp : IsExp []
  unsigned : {e : ℕ} {ds : Bytes} → is_exp e ≡ true → IsDigits ds → IsExp (e ∷ ds)
  signed :
      {e s : ℕ} {ds : Bytes}
      → is_exp e ≡ true
      → (s == b'+' || s == b'-') ≡ true
      → IsDigits ds
      → IsExp (e ∷ s ∷ ds)

pub record IsJsonNumber (text : Bytes) : Type 0 where
  pub sign : Bytes
  pub whole : Bytes
  pub fraction : Bytes
  pub exponent : Bytes
  pub spelled : text ≡ sign ++ (whole ++ (fraction ++ exponent))
  pub is_sign : IsSign sign
  pub is_int : IsInt whole
  pub is_frac : IsFrac fraction
  pub is_exponent : IsExp exponent

-- The state that `begin_value` starts a number in.
unfoldable pub num_start : ℕ → Option NumState
num_start b =
    if b == b'-'
    then some after_sign
    else if b == b'0'
    then some zero_digit
    else if within b'1' b'9' b
    then some int
    else none

abbrev next_from : Option NumState → ℕ → Option NumState
next_from none b = none
next_from (some s) b = num_next s b

-- The state after some more bytes.
unfoldable pub num_run : Option NumState → Bytes → Option NumState
num_run s [] = s
num_run s (b ∷ bs) = num_run (next_from s b) bs

unfoldable pub num_scan : Bytes → Option NumState
unfolding num_start num_run
num_scan [] = none
num_scan (b ∷ bs) = num_run (num_start b) bs

abbrev pub ends : Option NumState → Bool
ends none = false
ends (some s) = terminable s

pub num_run-none : (bs : Bytes) → num_run none bs ≡ none
unfolding num_run
num_run-none [] = refl
num_run-none (b ∷ bs) = num_run-none bs

pub num_run-append :
    (s : Option NumState) (xs ys : Bytes) → num_run s (xs ++ ys) ≡ num_run (num_run s xs) ys
unfolding num_run
num_run-append s [] ys = refl
num_run-append s (x ∷ xs) ys = num_run-append (next_from s x) xs ys
