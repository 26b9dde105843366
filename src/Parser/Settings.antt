-- ===== src/Parser/Settings.antt =====
-- The settings of src/parser.rs, which no byte changes.
use jawohl.Prelude.{ℕ, Bool, ◌≡◌, ap, none, arith, Bytes}
use jawohl.Value.{Value}
use jawohl.Parser.State.{
  Expect, StrState, NumState, Tok, Parser, Outcome, fail, push_frame, raw, backslash, unicode, idle,
  str, num, lit,
}
use jawohl.Parser.Structure.{
  Arm, close_bracket, attach, attach_to, close_container, close_frame, announce, begin_value,
  open_value, dispatch, step_structural,
}
use jawohl.Parser.Strings.{step_string, close_string, end_unicode, end_surrogate}
use jawohl.Parser.Numbers.{step_number, close_number}
use jawohl.Parser.Literals.{step_literal}
use jawohl.Parser.Feed.{
  step_tok, advance, emit_progress_of, feed, finish, finish_from, finish_tok, closable_in,
}
use jawohl.Parser.Ensures.{Ensures, feed_bytes-Ensures, feed-Ensures}
use jawohl.Parser.Valid.Steps.{Any}

-- Plain decimals are enforced, or are not.
abbrev pub Enforces : Bool → Parser → Type 0
Enforces on p = p.enforce_plain_decimal ≡ on

enforce-attach :
    (v : Value) (p : Parser) → (attach v p).enforce_plain_decimal ≡ p.enforce_plain_decimal
unfolding attach attach_to
enforce-attach v p = ground arith

module _ (on : Bool) where
  abbrev pub Leaves : {A : Type 0} → Outcome A → Type 0
  Leaves o = Ensures (Enforces on) Any o

  close_container-Leaves : (b : ℕ) (p : Parser) → Enforces on p → Leaves (close_container b p)
  unfolding close_container close_frame fail
  close_container-Leaves b p h = grind (arith, enforce-attach)

  enforce-announce : (b : ℕ) (p : Parser) → Enforces on p → Enforces on (announce b p)
  unfolding announce
  enforce-announce b p h = ground arith

  open_value-Leaves : (a : Arm) (b : ℕ) (p : Parser) → Enforces on p → Leaves (open_value a b p)
  unfolding open_value push_frame fail
  open_value-Leaves close_bracket b p h = grind (arith, close_container-Leaves)
  open_value-Leaves _ b p h = ground arith

  begin_value-Leaves : (b : ℕ) (p : Parser) → Enforces on p → Leaves (begin_value b p)
  unfolding begin_value
  begin_value-Leaves b p h = open_value-Leaves _ b _ (enforce-announce b p h)

  dispatch-Leaves : (e : Expect) (b : ℕ) (p : Parser) → Enforces on p → Leaves (dispatch e b p)
  unfolding dispatch fail
  dispatch-Leaves Expect.value b p h = begin_value-Leaves b p h
  dispatch-Leaves _ b p h = grind (arith, close_container-Leaves)

  step_structural-Leaves : (b : ℕ) (p : Parser) → Enforces on p → Leaves (step_structural b p)
  unfolding step_structural
  step_structural-Leaves b p h = grind (arith, dispatch-Leaves)

  step_string-Leaves :
      (state : StrState) (decoded : Bytes) (is_key : Bool) (pending b : ℕ) (p : Parser)
      → Enforces on p
      → Leaves (step_string state decoded is_key pending b p)
  unfolding step_string close_string end_unicode end_surrogate fail
  step_string-Leaves raw decoded is_key pending b p h = grind (arith, enforce-attach)
  step_string-Leaves backslash decoded is_key pending b p h = grind arith
  step_string-Leaves (unicode n acc) decoded is_key pending b p h = grind arith
  step_string-Leaves _ decoded is_key pending b p h = grind arith

  step_literal-Leaves :
      (text : Bytes) (b : ℕ) (p : Parser) → Enforces on p → Leaves (step_literal text b p)
  unfolding step_literal fail
  step_literal-Leaves text b p h = grind (arith, enforce-attach)

  step_number-Leaves :
      (text : Bytes) (s : NumState) (b : ℕ) (p : Parser)
      → Enforces on p
      → Leaves (step_number text s b p)
  unfolding step_number close_number fail
  step_number-Leaves text s b p h = grind (arith, enforce-attach)

  step_tok-Leaves : (t : Tok) (b : ℕ) (p : Parser) → Enforces on p → Leaves (step_tok t b p)
  unfolding step_tok
  step_tok-Leaves (str decoded state is_key pending) b p h =
      step_string-Leaves state decoded is_key pending b p h
  step_tok-Leaves (num text state) b p h = grind (arith, step_number-Leaves, step_structural-Leaves)
  step_tok-Leaves (lit text) b p h = step_literal-Leaves text b p h
  step_tok-Leaves idle b p h = step_structural-Leaves b p h

  advance-Leaves : (p : Parser) → Enforces on p → Enforces on (advance p)
  unfolding advance closable_in
  advance-Leaves p h = ground arith

  emit_progress-Leaves : (t : Tok) (p : Parser) → Enforces on p → Enforces on (emit_progress_of t p)
  unfolding emit_progress_of
  emit_progress-Leaves t p h = grind arith

  pub feed-Leaves : (bs : Bytes) (p : Parser) → p.failed ≡ none → Enforces on p → Leaves (feed bs p)
  feed-Leaves bs p fresh h =
      feed-Ensures (Enforces on) (Enforces on) Any (λ q i. emit_progress-Leaves q.tok q i) bs p
        fresh
        (feed_bytes-Ensures (Enforces on) (Enforces on) Any (λ b q i. step_tok-Leaves q.tok b q i)
          advance-Leaves bs p h)

  finish_tok-Leaves : (t : Tok) (p : Parser) → Enforces on p → Leaves (finish_tok t p)
  unfolding close_number fail
  finish_tok-Leaves t p h = grind (arith, enforce-attach)

  pub finish-Leaves : (p : Parser) → p.failed ≡ none → Enforces on p → Leaves (finish p)
  unfolding finish
  finish-Leaves p fresh h = rw (ap (λ o. finish_from o p) fresh) (finish_tok-Leaves p.tok p h)
