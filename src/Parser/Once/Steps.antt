-- ===== src/Parser/Once/Steps.antt =====
-- The event `DocumentCompleted`, over the steps of src/parser.rs.
use jawohl.Prelude.{
  ℕ, ◌+◌, ◌≡◌, refl, ap, ◌∙◌, Bool, true, false, List, [], ◌∷◌, ◌++◌, none, arith, Bytes,
}
use jawohl.Event.{Event, value_completed, document_completed}
use jawohl.Value.{Value, number}
use jawohl.Parser.State.{
  Expect, Frame, StrState, raw, backslash, unicode, surrogate_hex, Tok, idle, str, num, lit, Parser,
  Outcome, fail, push_frame, slot_pointer,
}
use jawohl.Parser.Structure.{
  Arm, close_bracket, attach, attach_to, close_container, close_frame, announce, open_value,
  begin_value, dispatch, step_structural,
}
use jawohl.Parser.Strings.{step_string, close_string, end_unicode, end_surrogate}
use jawohl.Parser.Numbers.{step_number, close_number}
use jawohl.Parser.Literals.{step_literal}
use jawohl.Parser.Feed.{
  step_tok, advance, closable_in, emit_progress_of, feed, finish, finish_from, finish_tok,
}
use jawohl.Parser.Ensures.{Ensures, Ensures-and, feed_bytes-Ensures, feed-Ensures}
use jawohl.Parser.Valid.{IsValid, TokFits}
use jawohl.Parser.Valid.Steps.{Any, step_tok-IsValid, advance-IsValid}

abbrev pub one : Event → ℕ
one document_completed = 1
one _ = 0

-- How often the end of the document is told.
unfoldable pub completions : List Event → ℕ
completions [] = 0
completions (e ∷ es) = one e + completions es

abbrev pub closed : Expect → ℕ
closed Expect.done = 1
closed _ = 0

pub completions-push :
    (es : List Event) (e : Event) → completions (es ++ e ∷ []) ≡ completions es + one e
unfolding completions
completions-push [] e = omega arith
completions-push (x ∷ es) e = omega (arith, completions-push es e)

-- With the `told` that were drained, the end was told once if the root is closed, and never before.
abbrev pub Once : ℕ → Parser → Type 0
Once told p = told + completions p.events ≡ closed p.expect

key_ajar :
    (decoded : Bytes) (s : StrState) (pending : ℕ) (e : Expect)
    → TokFits (str decoded s true pending) e
    → closed e ≡ 0
key_ajar decoded s pending Expect.key_or_end fits = refl
key_ajar decoded s pending Expect.key fits = refl
key_ajar decoded s pending _ fits = absurd fits

module _ (told : ℕ) where
  attach_to-Once :
      (stack : List Frame) (v : Value) (p : Parser)
      → closed p.expect ≡ 0
      → Once told p
      → Once told (attach_to stack v p)
  unfolding attach_to
  attach_to-Once [] v p ajar once = omega (arith, completions-push p.events document_completed)
  attach_to-Once (Frame.object ms k n ∷ below) v p ajar once = omega arith
  attach_to-Once (Frame.array vs n ∷ below) v p ajar once = omega arith

  attach-Once :
      (v : Value) (p : Parser) → closed p.expect ≡ 0 → Once told p → Once told (attach v p)
  unfolding attach
  attach-Once v p ajar once =
      attach_to-Once p.stack v _ ajar
        (omega (arith, completions-push p.events (value_completed (slot_pointer p) v)))

  abbrev Tells : {A : Type 0} → Outcome A → Type 0
  Tells o = Ensures (Once told) Any o

  close_frame-Once :
      (stack : List Frame) (b : ℕ) (p : Parser)
      → closed p.expect ≡ 0
      → Once told p
      → Tells (close_frame stack b p)
  unfolding close_frame fail
  close_frame-Once [] b p ajar once = tt
  close_frame-Once (frame ∷ below) b p ajar once = grind (arith, attach-Once)

  close_container-Once :
      (b : ℕ) (p : Parser) → closed p.expect ≡ 0 → Once told p → Tells (close_container b p)
  unfolding close_container
  close_container-Once b p ajar once = close_frame-Once p.stack b p ajar once

  open_value-Once :
      (a : Arm) (b : ℕ) (p : Parser)
      → p.expect ≡ Expect.value
      → Once told p
      → Tells (open_value a b p)
  unfolding open_value fail push_frame
  open_value-Once close_bracket b p e once = grind (arith, close_container-Once)
  open_value-Once _ b p e once = ground arith

  announce-Once : (b : ℕ) (p : Parser) → Once told p → Once told (announce b p)
  unfolding announce
  announce-Once b p once = grind (arith, completions-push)

  expect-announce : (b : ℕ) (p : Parser) → (announce b p).expect ≡ p.expect
  unfolding announce
  expect-announce b p = ground arith

  begin_value-Once :
      (b : ℕ) (p : Parser) → p.expect ≡ Expect.value → Once told p → Tells (begin_value b p)
  unfolding begin_value
  begin_value-Once b p e once =
      open_value-Once _ b _ (expect-announce b p ∙ e) (announce-Once b p once)

  dispatch-Once :
      (e : Expect) (b : ℕ) (p : Parser) → p.expect ≡ e → Once told p → Tells (dispatch e b p)
  unfolding dispatch fail
  dispatch-Once Expect.value b p e once = begin_value-Once b p e once
  dispatch-Once _ b p e once = grind (arith, close_container-Once)

  step_structural-Once : (b : ℕ) (p : Parser) → Once told p → Tells (step_structural b p)
  unfolding step_structural
  step_structural-Once b p once = grind (arith, dispatch-Once)

  step_string-Once :
      (s : StrState) (decoded : Bytes) (is_key : Bool) (pending b : ℕ) (p : Parser)
      → TokFits (str decoded s is_key pending) p.expect
      → Once told p
      → Tells (step_string s decoded is_key pending b p)
  unfolding step_string close_string end_unicode end_surrogate fail
  step_string-Once raw decoded true pending b p fits once =
      grind (arith, key_ajar decoded raw pending p.expect fits)
  step_string-Once raw decoded false pending b p fits once = grind (arith, attach-Once)
  step_string-Once backslash decoded is_key pending b p fits once = ground arith
  step_string-Once (unicode n acc) decoded is_key pending b p fits once = ground arith
  step_string-Once (surrogate_hex hi n acc) decoded is_key pending b p fits once = ground arith
  step_string-Once _ decoded is_key pending b p fits once = ground arith

  close_number-Once :
      (text : Bytes) (p : Parser)
      → p.expect ≡ Expect.value
      → Once told p
      → Once told (close_number text p)
  unfolding close_number
  close_number-Once text p e once =
      attach-Once (number (record { text = text })) (record p { tok = idle }) (ap closed e) once

  step_literal-Once :
      (text : Bytes) (b : ℕ) (p : Parser)
      → p.expect ≡ Expect.value
      → Once told p
      → Tells (step_literal text b p)
  unfolding step_literal fail
  step_literal-Once text b p e once = grind (arith, attach-Once)

  step_tok-Once :
      (t : Tok) (b : ℕ) (p : Parser)
      → p.tok ≡ t
      → TokFits t p.expect
      → Once told p
      → Tells (step_tok t b p)
  unfolding step_tok step_number fail
  step_tok-Once (str decoded state is_key pending) b p t fits once =
      step_string-Once state decoded is_key pending b p fits once
  step_tok-Once (num text state) b p t fits once =
      grind (arith, close_number-Once text p, step_structural-Once)
  step_tok-Once (lit text) b p t fits once = step_literal-Once text b p fits once
  step_tok-Once idle b p t fits once = step_structural-Once b p once

  advance-Once : (p : Parser) → Once told p → Once told (advance p)
  unfolding advance closable_in
  advance-Once p once = ground arith

  emit_progress-Once : (t : Tok) (p : Parser) → Once told p → Once told (emit_progress_of t p)
  unfolding emit_progress_of
  emit_progress-Once t p once = grind (arith, completions-push)

  finish_tok-Once :
      (t : Tok) (p : Parser) → p.tok ≡ t → TokFits t p.expect → Once told p → Tells (finish_tok t p)
  unfolding fail
  finish_tok-Once (num text state) p t fits once = grind (arith, close_number-Once text p)
  finish_tok-Once _ p t fits once = ground arith

  pub feed-Once :
      (bytes : Bytes) (p : Parser)
      → p.failed ≡ none
      → IsValid 0 p
      → Once told p
      → Tells (feed bytes p)
  feed-Once bytes p fresh valid once =
      feed-Ensures (λ q. IsValid 0 q × Once told q) (Once told) Any
        (λ q i. emit_progress-Once q.tok q i.1) bytes p fresh
        (feed_bytes-Ensures (λ q. IsValid 0 q × Once told q) (λ q. IsValid 1 q × Once told q) Any
          (λ b q i.
            Ensures-and (IsValid 1) (Once told) Any (step_tok q.tok b q)
              (step_tok-IsValid q.tok b q refl i.0) (step_tok-Once q.tok b q refl i.0.token i.1))
          (λ q i. (advance-IsValid q i.0, advance-Once q i.1)) bytes p (valid, once))

  pub finish-Once : (p : Parser) → p.failed ≡ none → IsValid 0 p → Once told p → Tells (finish p)
  unfolding finish
  finish-Once p fresh valid once =
      rw (ap (λ o. finish_from o p) fresh) (finish_tok-Once p.tok p refl valid.token once)
