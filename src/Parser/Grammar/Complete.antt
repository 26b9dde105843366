-- ===== src/Parser/Grammar/Complete.antt =====
-- From JSON's number grammar to the number states of src/parser.rs.
use jawohl.Prelude.{◌≡◌, refl, ◌↔◌, true, [], ◌∷◌, ◌++◌, some, arith, Bytes}
use jawohl.Parser.State.{
  NumState, after_sign, zero_digit, int, dot, frac, exp, exp_sign, exp_digits, terminable,
}
use jawohl.Parser.Numbers.{num_next}
use jawohl.Parser.Grammar.Sound.{accepted-IsJsonNumber}
use jawohl.Parser.Grammar.{
  AllDigits, IsDigits, IsSign, plus, minus, IsInt, zero_alone, digits, IsFrac, no_frac, point,
  IsExp, no_exp, unsigned, signed, IsJsonNumber, num_start, num_run, num_scan, ends, num_run-append,
}

-- The states that a digit does not leave.
abbrev Loops : NumState → Type 0
Loops int = Unit
Loops frac = Unit
Loops exp_digits = Unit
Loops _ = ⊥

run-digits : (s : NumState) (ds : Bytes) → Loops s → AllDigits ds → num_run (some s) ds ≡ some s
unfolding num_run num_next
run-digits s [] l h = refl
run-digits int (d ∷ ds) l h = ground (arith, run-digits int ds tt h.1)
run-digits frac (d ∷ ds) l h = ground (arith, run-digits frac ds tt h.1)
run-digits exp_digits (d ∷ ds) l h = ground (arith, run-digits exp_digits ds tt h.1)
run-digits _ (d ∷ ds) l h = ground arith

run-exp : (ds : Bytes) → IsDigits ds → num_run (some exp) ds ≡ some exp_digits
unfolding num_run num_next
run-exp [] h = absurd h
run-exp (d ∷ ds) h = ground (arith, run-digits exp_digits ds tt h.1)

run-exp_sign : (ds : Bytes) → IsDigits ds → num_run (some exp_sign) ds ≡ some exp_digits
unfolding num_run num_next
run-exp_sign [] h = absurd h
run-exp_sign (d ∷ ds) h = ground (arith, run-digits exp_digits ds tt h.1)

-- The states in which an exponent may follow.
abbrev BeforeExp : NumState → Type 0
BeforeExp zero_digit = Unit
BeforeExp int = Unit
BeforeExp frac = Unit
BeforeExp _ = ⊥

ends-exponent :
    (s : NumState) {ex : Bytes} → BeforeExp s → IsExp ex → ends (num_run (some s) ex) ≡ true
unfolding num_run num_next terminable
ends-exponent s b no_exp = ground arith
ends-exponent s b (unsigned {e} {ds} x h) = ground (arith, run-exp ds h)
ends-exponent s b (signed {e} {s = c} {ds} x y h) = ground (arith, run-exp_sign ds h)

-- The states in which a fraction may follow.
abbrev BeforeFrac : NumState → Type 0
BeforeFrac zero_digit = Unit
BeforeFrac int = Unit
BeforeFrac _ = ⊥

run-dot : (ds : Bytes) → IsDigits ds → num_run (some dot) ds ≡ some frac
unfolding num_run num_next
run-dot [] h = absurd h
run-dot (d ∷ ds) h = ground (arith, run-digits frac ds tt h.1)

run-point :
    (s : NumState) (ds : Bytes)
    → BeforeFrac s
    → IsDigits ds
    → num_run (some s) (b'.' ∷ ds) ≡ some frac
unfolding num_run num_next
run-point zero_digit ds b h = run-dot ds h
run-point int ds b h = run-dot ds h
run-point _ ds b h = absurd b

BeforeFrac-BeforeExp : (s : NumState) → BeforeFrac s → BeforeExp s
BeforeFrac-BeforeExp zero_digit b = tt
BeforeFrac-BeforeExp int b = tt
BeforeFrac-BeforeExp _ b = absurd b

ends-fraction :
    (s : NumState) {fr ex : Bytes}
    → BeforeFrac s
    → IsFrac fr
    → IsExp ex
    → ends (num_run (some s) (fr ++ ex)) ≡ true
ends-fraction s b no_frac x = ends-exponent s (BeforeFrac-BeforeExp s b) x
ends-fraction s {ex = ex} b (point {ds} h) x =
    rw (num_run-append (some s) (b'.' ∷ ds) ex) (rw (run-point s ds b h) (ends-exponent frac tt x))

ends-whole :
    {whole fr ex : Bytes}
    → IsInt whole
    → IsFrac fr
    → IsExp ex
    → ends (num_scan (whole ++ (fr ++ ex))) ≡ true
unfolding num_scan num_start
ends-whole zero_alone f x = ends-fraction zero_digit tt f x
ends-whole {fr = fr} {ex = ex} (digits {d} {ds} r all) f x = ground (
  arith,
  num_run-append (some int) ds (fr ++ ex),
  run-digits int ds tt all,
  ends-fraction int tt f x,
)

ends-after_minus :
    {whole fr ex : Bytes}
    → IsInt whole
    → IsFrac fr
    → IsExp ex
    → ends (num_run (some after_sign) (whole ++ (fr ++ ex))) ≡ true
unfolding num_run num_next
ends-after_minus zero_alone f x = ends-fraction zero_digit tt f x
ends-after_minus {fr = fr} {ex = ex} (digits {d} {ds} r all) f x = ground (
  arith,
  num_run-append (some int) ds (fr ++ ex),
  run-digits int ds tt all,
  ends-fraction int tt f x,
)

ends-signed :
    {sign whole fr ex : Bytes}
    → IsSign sign
    → IsInt whole
    → IsFrac fr
    → IsExp ex
    → ends (num_scan (sign ++ (whole ++ (fr ++ ex)))) ≡ true
ends-signed plus w f x = ends-whole w f x
ends-signed minus w f x = unfold num_scan num_start in ends-after_minus w f x

-- The number states accept exactly the texts that JSON's grammar derives.
pub accepted_iff : (text : Bytes) → (ends (num_scan text) ≡ true) ↔ IsJsonNumber text
accepted_iff text = (
  accepted-IsJsonNumber text,
  λ n. rw n.spelled (ends-signed n.is_sign n.is_int n.is_frac n.is_exponent),
)
