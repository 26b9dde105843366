-- ===== src/Parser/Depth.antt =====
-- The depth of the containers that are open, over the steps of src/parser.rs.
use jawohl.Prelude.{ℕ, Bool, ◌≤◌, ◌≡◌, length, none, arith, Bytes}
use jawohl.Value.{Value}
use jawohl.Parser.State.{
  Expect, StrState, NumState, Tok, Parser, Outcome, fail, push_frame, raw, backslash, unicode, idle,
  str, num, lit,
}
use jawohl.Parser.Structure.{
  Arm, close_bracket, attach, attach_to, close_container, close_frame, announce, begin_value,
  open_value, dispatch, step_structural,
}
use jawohl.Parser.Strings.{step_string, close_string, end_unicode, end_surrogate}
use jawohl.Parser.Numbers.{step_number, close_number}
use jawohl.Parser.Literals.{step_literal}
use jawohl.Parser.Feed.{step_tok, advance, emit_progress_of, feed, closable_in}
use jawohl.Parser.Ensures.{Ensures, feed_bytes-Ensures, feed-Ensures}

-- No more than `k` containers are open, and the limit allows no more.
abbrev pub Within : ℕ → Parser → Type 0
Within k p = (length p.stack ≤ k) × (p.max_depth ≤ k)

Within-attach : (k : ℕ) (v : Value) (p : Parser) → Within k p → Within k (attach v p)
unfolding attach attach_to
Within-attach k v p h = ground arith

module _ (k : ℕ) where
  -- So it stays, where the operation returns and where it fails.
  abbrev pub Stays : {A : Type 0} → Outcome A → Type 0
  Stays o = Ensures (Within k) (λ e. Within k) o

  close_container-Stays : (b : ℕ) (p : Parser) → Within k p → Stays (close_container b p)
  unfolding close_container close_frame fail
  close_container-Stays b p h = grind (arith, Within-attach k)

  Within-announce : (b : ℕ) (p : Parser) → Within k p → Within k (announce b p)
  unfolding announce
  Within-announce b p h = ground arith

  open_value-Stays : (a : Arm) (b : ℕ) (p : Parser) → Within k p → Stays (open_value a b p)
  unfolding open_value push_frame fail
  open_value-Stays close_bracket b p h = grind (arith, close_container-Stays)
  open_value-Stays _ b p h = ground arith

  begin_value-Stays : (b : ℕ) (p : Parser) → Within k p → Stays (begin_value b p)
  unfolding begin_value
  begin_value-Stays b p h = open_value-Stays _ b _ (Within-announce b p h)

  dispatch-Stays : (e : Expect) (b : ℕ) (p : Parser) → Within k p → Stays (dispatch e b p)
  unfolding dispatch fail
  dispatch-Stays Expect.value b p h = begin_value-Stays b p h
  dispatch-Stays _ b p h = grind (arith, close_container-Stays)

  step_structural-Stays : (b : ℕ) (p : Parser) → Within k p → Stays (step_structural b p)
  unfolding step_structural
  step_structural-Stays b p h = grind (arith, dispatch-Stays)

  step_string-Stays :
      (state : StrState) (decoded : Bytes) (is_key : Bool) (pending b : ℕ) (p : Parser)
      → Within k p
      → Stays (step_string state decoded is_key pending b p)
  unfolding step_string close_string end_unicode end_surrogate fail
  step_string-Stays raw decoded is_key pending b p h = grind (arith, Within-attach k)
  step_string-Stays backslash decoded is_key pending b p h = grind arith
  step_string-Stays (unicode n acc) decoded is_key pending b p h = grind arith
  step_string-Stays _ decoded is_key pending b p h = grind arith

  step_literal-Stays :
      (text : Bytes) (b : ℕ) (p : Parser) → Within k p → Stays (step_literal text b p)
  unfolding step_literal fail
  step_literal-Stays text b p h = grind (arith, Within-attach k)

  step_number-Stays :
      (text : Bytes) (s : NumState) (b : ℕ) (p : Parser)
      → Within k p
      → Stays (step_number text s b p)
  unfolding step_number close_number fail
  step_number-Stays text s b p h = grind (arith, Within-attach k)

  step_tok-Stays : (t : Tok) (b : ℕ) (p : Parser) → Within k p → Stays (step_tok t b p)
  unfolding step_tok
  step_tok-Stays (str decoded state is_key pending) b p h =
      step_string-Stays state decoded is_key pending b p h
  step_tok-Stays (num text state) b p h = grind (arith, step_number-Stays, step_structural-Stays)
  step_tok-Stays (lit text) b p h = step_literal-Stays text b p h
  step_tok-Stays idle b p h = step_structural-Stays b p h

  advance-Stays : (p : Parser) → Within k p → Within k (advance p)
  unfolding advance closable_in
  advance-Stays p h = ground arith

  emit_progress-Stays : (t : Tok) (p : Parser) → Within k p → Within k (emit_progress_of t p)
  unfolding emit_progress_of
  emit_progress-Stays t p h = grind arith

  -- Neither a chunk nor a failure nests deeper than the limit, or than before if that is more: where
  -- neither the limit nor the number of open containers is above `k`, nor are they after the chunk,
  -- whether it is accepted or refused.
  pub feed-Stays : (bs : Bytes) (p : Parser) → p.failed ≡ none → Within k p → Stays (feed bs p)
  feed-Stays bs p fresh h =
      feed-Ensures (Within k) (Within k) (λ e. Within k) (λ q i. emit_progress-Stays q.tok q i) bs p
        fresh
        (feed_bytes-Ensures (Within k) (Within k) (λ e. Within k)
          (λ b q i. step_tok-Stays q.tok b q i) advance-Stays bs p h)
