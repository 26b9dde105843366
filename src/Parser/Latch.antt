-- ===== src/Parser/Latch.antt =====
-- The field `failed` of src/parser.rs, over every operation.
use jawohl.Prelude.{ℕ, Bool, ◌≡◌, ap, ◌∙◌, none, some, arith, Bytes}
use jawohl.Error.{ParseErrorKind, ParseError}
use jawohl.Value.{Value}
use jawohl.Parser.State.{
  Expect, StrState, NumState, Tok, Parser, Outcome, err, fail, push_frame, raw, backslash, unicode,
  idle, str, num, lit,
}
use jawohl.Parser.Structure.{
  Arm, close_bracket, attach, attach_to, close_container, close_frame, announce, begin_value,
  open_value, dispatch, step_structural,
}
use jawohl.Parser.Strings.{step_string, close_string, end_unicode, end_surrogate}
use jawohl.Parser.Numbers.{step_number, close_number}
use jawohl.Parser.Literals.{step_literal}
use jawohl.Parser.Feed.{
  step_tok, advance, emit_progress_of, feed, finish, finish_from, finish_tok, closable_in,
}
use jawohl.Parser.Ensures.{Ensures, feed_bytes-Ensures, feed-Ensures}

abbrev pub NotFailed : Parser → Type 0
NotFailed p = p.failed ≡ none

abbrev pub Recorded : ParseError → Parser → Type 0
Recorded e p = p.failed ≡ some e

-- An operation on a parser without a failure ends without one, or returns the one that it records.
abbrev pub Latches : {A : Type 0} → Outcome A → Type 0
Latches o = Ensures NotFailed Recorded o

failed-attach : (v : Value) (p : Parser) → (attach v p).failed ≡ p.failed
unfolding attach attach_to
failed-attach v p = ground arith

fail-Latches :
    (A : Type 0) (kind : ParseErrorKind) (p : Parser)
    → p.failed ≡ none
    → Latches (fail {A = A} kind p)
unfolding fail
fail-Latches A kind p h = ground arith

close_container-Latches : (b : ℕ) (p : Parser) → p.failed ≡ none → Latches (close_container b p)
unfolding close_container close_frame fail
close_container-Latches b p h = grind (arith, failed-attach)

failed-announce : (b : ℕ) (p : Parser) → (announce b p).failed ≡ p.failed
unfolding announce
failed-announce b p = ground arith

open_value-Latches : (a : Arm) (b : ℕ) (p : Parser) → p.failed ≡ none → Latches (open_value a b p)
unfolding open_value push_frame fail
open_value-Latches close_bracket b p h = grind (arith, close_container-Latches)
open_value-Latches _ b p h = ground arith

begin_value-Latches : (b : ℕ) (p : Parser) → p.failed ≡ none → Latches (begin_value b p)
unfolding begin_value
begin_value-Latches b p h = open_value-Latches _ b _ (failed-announce b p ∙ h)

dispatch-Latches : (e : Expect) (b : ℕ) (p : Parser) → p.failed ≡ none → Latches (dispatch e b p)
unfolding dispatch fail
dispatch-Latches Expect.value b p h = begin_value-Latches b p h
dispatch-Latches _ b p h = grind (arith, close_container-Latches)

step_structural-Latches : (b : ℕ) (p : Parser) → p.failed ≡ none → Latches (step_structural b p)
unfolding step_structural
step_structural-Latches b p h = grind (arith, dispatch-Latches)

step_string-Latches :
    (state : StrState) (decoded : Bytes) (is_key : Bool) (pending b : ℕ) (p : Parser)
    → p.failed ≡ none
    → Latches (step_string state decoded is_key pending b p)
unfolding step_string close_string end_unicode end_surrogate fail
step_string-Latches raw decoded is_key pending b p h = grind (arith, failed-attach)
step_string-Latches backslash decoded is_key pending b p h = grind arith
step_string-Latches (unicode n acc) decoded is_key pending b p h = grind arith
step_string-Latches _ decoded is_key pending b p h = grind arith

step_literal-Latches :
    (text : Bytes) (b : ℕ) (p : Parser) → p.failed ≡ none → Latches (step_literal text b p)
unfolding step_literal fail
step_literal-Latches text b p h = grind (arith, failed-attach)

step_number-Latches :
    (text : Bytes) (s : NumState) (b : ℕ) (p : Parser)
    → p.failed ≡ none
    → Latches (step_number text s b p)
unfolding step_number close_number fail
step_number-Latches text s b p h = grind (arith, failed-attach)

step_tok-Latches : (t : Tok) (b : ℕ) (p : Parser) → p.failed ≡ none → Latches (step_tok t b p)
unfolding step_tok
step_tok-Latches (str decoded state is_key pending) b p h =
    step_string-Latches state decoded is_key pending b p h
step_tok-Latches (num text state) b p h =
    grind (arith, step_number-Latches, step_structural-Latches)
step_tok-Latches (lit text) b p h = step_literal-Latches text b p h
step_tok-Latches idle b p h = step_structural-Latches b p h

failed-advance : (p : Parser) → (advance p).failed ≡ p.failed
unfolding advance closable_in
failed-advance p = ground arith

failed-emit_progress : (t : Tok) (p : Parser) → (emit_progress_of t p).failed ≡ p.failed
unfolding emit_progress_of
failed-emit_progress t p = grind arith

pub feed-Latches : (bs : Bytes) (p : Parser) → p.failed ≡ none → Latches (feed bs p)
feed-Latches bs p h =
    feed-Ensures NotFailed NotFailed Recorded (λ q i. failed-emit_progress q.tok q ∙ i) bs p h
      (feed_bytes-Ensures NotFailed NotFailed Recorded (λ b q. step_tok-Latches q.tok b q)
        (λ q i. failed-advance q ∙ i) bs p h)

finish_tok-Latches : (t : Tok) (p : Parser) → p.failed ≡ none → Latches (finish_tok t p)
unfolding close_number fail
finish_tok-Latches t p h = grind (arith, failed-attach)

pub finish-Latches : (p : Parser) → p.failed ≡ none → Latches (finish p)
unfolding finish
finish-Latches p h = rw (ap (λ o. finish_from o p) h) (finish_tok-Latches p.tok p h)

-- A chunk that fails leaves the parser failed: every later chunk, and the end of the input, return
-- the same error and change nothing.
pub feed-after_failure :
    (bytes : Bytes) (p q : Parser) (e : ParseError)
    → p.failed ≡ none
    → feed bytes p ≡ err e q
    → ((later : Bytes) → feed later q ≡ err e q) × (finish q ≡ err e q)
feed-after_failure bytes p q e fresh failing =
    let recorded : q.failed ≡ some e = rw failing at (feed-Latches bytes p fresh) in
    (λ later. unfold feed in rw recorded, unfold finish in rw recorded)
