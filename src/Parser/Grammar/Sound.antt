-- ===== src/Parser/Grammar/Sound.antt =====
-- From the number states of src/parser.rs to JSON's number grammar.
use jawohl.Prelude.{
  ℕ, ◌≡◌, refl, ap, ◌∙◌, inl, inr, true, ◌||◌, [], ◌∷◌, ◌++◌, some, arith, ◌==◌, ==_iff, Bool-cases,
  Bytes,
}
use jawohl.Utf8.{within}
use jawohl.Parser.State.{
  after_sign, zero_digit, int, dot, frac, exp, exp_sign, exp_digits, terminable,
}
use jawohl.Parser.Numbers.{is_digit, is_exp, num_next}
use jawohl.Parser.Grammar.{
  AllDigits, IsDigits, IsSign, plus, minus, IsInt, zero_alone, digits, IsFrac, no_frac, point,
  IsExp, no_exp, unsigned, signed, IsJsonNumber, num_start, num_run, num_scan, ends, num_run-none,
}

-- What may still follow in each state.
record FracExp (bs : Bytes) : Type 0 where
  fraction : Bytes
  exponent : Bytes
  spelled : bs ≡ fraction ++ exponent
  is_frac : IsFrac fraction
  is_exponent : IsExp exponent

record DigitsThen (P : Bytes → Type 0) (bs : Bytes) : Type 0 where
  ds : Bytes
  rest : Bytes
  spelled : bs ≡ ds ++ rest
  all : AllDigits ds
  tail : P rest

DigitsThen-cons :
    (P : Bytes → Type 0) (b : ℕ) {bs : Bytes}
    → is_digit b ≡ true
    → DigitsThen P bs
    → DigitsThen P (b ∷ bs)
DigitsThen-cons P b d t = record {
  ds = b ∷ t.ds;
  rest = t.rest;
  spelled = ap (λ (l : Bytes). b ∷ l) t.spelled;
  all = (d, t.all);
  tail = t.tail;
}

FracExp-none : {bs : Bytes} → IsExp bs → FracExp bs
FracExp-none {bs} e = record {
  fraction = [];
  exponent = bs;
  spelled = refl;
  is_frac = no_frac;
  is_exponent = e;
}

FracExp-point :
    (b : ℕ) (bs : Bytes) → is_digit b ≡ true → DigitsThen IsExp bs → FracExp (b'.' ∷ b ∷ bs)
FracExp-point b bs d t = record {
  fraction = b'.' ∷ b ∷ t.ds;
  exponent = t.rest;
  spelled = ap (λ (l : Bytes). b'.' ∷ b ∷ l) t.spelled;
  is_frac = point (d, t.all);
  is_exponent = t.tail;
}

accepts-exp_digits : (bs : Bytes) → ends (num_run (some exp_digits) bs) ≡ true → AllDigits bs
unfolding num_run num_next
accepts-exp_digits [] h = tt
accepts-exp_digits (b ∷ bs) h = ground (arith, accepts-exp_digits bs, num_run-none bs)

accepts-exp_sign : (bs : Bytes) → ends (num_run (some exp_sign) bs) ≡ true → IsDigits bs
unfolding num_run num_next terminable
accepts-exp_sign [] h = cc
accepts-exp_sign (b ∷ bs) h = ground (arith, accepts-exp_digits bs, num_run-none bs)

accepts-exp :
    (e : ℕ) (bs : Bytes) → is_exp e ≡ true → ends (num_run (some exp) bs) ≡ true → IsExp (e ∷ bs)
unfolding num_run num_next terminable
accepts-exp e [] x h = cc
accepts-exp e (b ∷ bs) x h = elim (Bool-cases (b == b'+' || b == b'-')) [
  | inl sign ↦ signed x sign (accepts-exp_sign bs (ground arith))
  | inr no_sign ↦ unsigned x (ground (arith, accepts-exp_digits bs, num_run-none bs))
]

accepts-frac : (bs : Bytes) → ends (num_run (some frac) bs) ≡ true → DigitsThen IsExp bs
unfolding num_run num_next terminable
accepts-frac [] h = record { ds = []; rest = []; spelled = refl; all = tt; tail = no_exp }
accepts-frac (b ∷ bs) h = elim (Bool-cases (is_digit b)) [
  | inl digit ↦ DigitsThen-cons IsExp b digit (accepts-frac bs (ground arith))
  | inr other ↦ record {
    ds = [];
    rest = b ∷ bs;
    spelled = refl;
    all = tt;
    tail = accepts-exp b bs (ground (arith, num_run-none bs)) (ground (arith, num_run-none bs));
  }
]

accepts-dot : (bs : Bytes) → ends (num_run (some dot) bs) ≡ true → FracExp (b'.' ∷ bs)
unfolding num_run num_next terminable
accepts-dot [] h = cc
accepts-dot (b ∷ bs) h =
    FracExp-point b bs (ground (arith, num_run-none bs))
      (accepts-frac bs (ground (arith, num_run-none bs)))

-- After the integer part, whose digits have ended.
accepts-zero : (bs : Bytes) → ends (num_run (some zero_digit) bs) ≡ true → FracExp bs
unfolding num_run num_next terminable
accepts-zero [] h = FracExp-none no_exp
accepts-zero (b ∷ bs) h = elim (Bool-cases (b == b'.')) [
  | inl dotted ↦ rw ((==_iff b b'.').0 dotted) (accepts-dot bs (ground arith))
  | inr other ↦
      FracExp-none
        (accepts-exp b bs (ground (arith, num_run-none bs)) (ground (arith, num_run-none bs)))
]

accepts-int : (bs : Bytes) → ends (num_run (some int) bs) ≡ true → DigitsThen FracExp bs
unfolding num_run num_next terminable
accepts-int [] h = record {
  ds = [];
  rest = [];
  spelled = refl;
  all = tt;
  tail = FracExp-none no_exp;
}
accepts-int (b ∷ bs) h = elim (Bool-cases (is_digit b)) [
  | inl digit ↦ DigitsThen-cons FracExp b digit (accepts-int bs (ground arith))
  | inr other ↦ record {
    ds = [];
    rest = b ∷ bs;
    spelled = refl;
    all = tt;
    tail = accepts-zero (b ∷ bs) (ground arith);
  }
]

-- The integer part with its tail.
record IntThen (bs : Bytes) : Type 0 where
  whole : Bytes
  rest : Bytes
  spelled : bs ≡ whole ++ rest
  is_int : IsInt whole
  tail : FracExp rest

accepts-leading_zero :
    (bs : Bytes) → ends (num_run (some zero_digit) bs) ≡ true → IntThen (b'0' ∷ bs)
accepts-leading_zero bs h = record {
  whole = b'0' ∷ [];
  rest = bs;
  spelled = refl;
  is_int = zero_alone;
  tail = accepts-zero bs h;
}

accepts-leading_digit :
    (d : ℕ) (bs : Bytes)
    → within b'1' b'9' d ≡ true
    → ends (num_run (some int) bs) ≡ true
    → IntThen (d ∷ bs)
accepts-leading_digit d bs x h =
    let t = accepts-int bs h in
    record {
      whole = d ∷ t.ds;
      rest = t.rest;
      spelled = ap (λ (l : Bytes). d ∷ l) t.spelled;
      is_int = digits x t.all;
      tail = t.tail;
    }

IsJsonNumber-of : (sign bs : Bytes) → IsSign sign → IntThen bs → IsJsonNumber (sign ++ bs)
IsJsonNumber-of sign bs s t = record {
  sign = sign;
  whole = t.whole;
  fraction = t.tail.fraction;
  exponent = t.tail.exponent;
  spelled = ap (λ l. sign ++ l) (t.spelled ∙ ap (λ l. t.whole ++ l) t.tail.spelled);
  is_sign = s;
  is_int = t.is_int;
  is_frac = t.tail.is_frac;
  is_exponent = t.tail.is_exponent;
}

accepts-after_sign : (bs : Bytes) → ends (num_run (some after_sign) bs) ≡ true → IntThen bs
unfolding num_run num_next terminable
accepts-after_sign [] h = cc
accepts-after_sign (b ∷ bs) h = elim (Bool-cases (b == b'0')) [
  | inl z ↦ rw ((==_iff b b'0').0 z) (accepts-leading_zero bs (ground arith))
  | inr other ↦
      accepts-leading_digit b bs (ground (arith, num_run-none bs)) (ground (arith, num_run-none bs))
]

-- A text at whose end the machine may stop is a JSON number.
pub accepted-IsJsonNumber : (text : Bytes) → ends (num_scan text) ≡ true → IsJsonNumber text
unfolding num_scan num_start
accepted-IsJsonNumber [] h = cc
accepted-IsJsonNumber (b ∷ bs) h = elim (Bool-cases (b == b'-')) [
  | inl m ↦
      rw ((==_iff b b'-').0 m)
        (IsJsonNumber-of (b'-' ∷ []) bs minus (accepts-after_sign bs (ground arith)))
  | inr other ↦ elim (Bool-cases (b == b'0')) [
    | inl z ↦
        rw ((==_iff b b'0').0 z)
          (IsJsonNumber-of [] (b'0' ∷ bs) plus (accepts-leading_zero bs (ground arith)))
    | inr nonzero ↦ IsJsonNumber-of [] (b ∷ bs) plus (
        accepts-leading_digit b bs (ground (arith, num_run-none bs))
          (ground (arith, num_run-none bs)))
  ]
]
