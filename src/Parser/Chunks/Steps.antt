-- ===== src/Parser/Chunks/Steps.antt =====
-- The steps of src/parser.rs from states that agree.
use mathlib.Core.Path.{subst}
use jawohl.Prelude.{
  ℕ, ◌≡◌, refl, ap, ◌∙◌, Bool, true, false, List, [], ◌∷◌, arith, ◌+◌, append-nil, Bytes,
  if◌then◌else◌, inl, inr, Option-cases,
}
use jawohl.Error.{ParseErrorKind}
use jawohl.Event.{Event, value_completed, document_completed, value_started, value_progressed}
use jawohl.Value.{Value, number}
use jawohl.Parser.State.{
  Expect, Frame, StrState, raw, backslash, unicode, surrogate_hex, NumState, Tok, idle, str, num,
  lit, Parser, ok, fail, push_frame, slot_pointer, push_event,
}
use jawohl.Parser.Structure.{
  Arm, arm, value_kind, is_blank, close_bracket, attach, attach_to, close_container, close_frame,
  announce, open_value, begin_value, dispatch, step_structural, in_empty_array,
}
use jawohl.Parser.Strings.{step_string, close_string, end_unicode, end_surrogate}
use jawohl.Parser.Numbers.{step_number, close_number}
use jawohl.Parser.Literals.{step_literal}
use jawohl.Parser.Feed.{
  step_tok, advance, closable_in, emit_progress_of, step, commit_tok, closable, stable_prefix,
}
use jawohl.Parser.Chunks.{
  settled, Agree, SameOutcome, SameOutcome-if, SameOutcome-bind, settled-append,
}

push_event-Agree :
    (e f : Event) (p q : Parser) → e ≡ f → Agree p q → Agree (push_event e p) (push_event f q)
push_event-Agree e f p q x a =
    ground (arith, settled-append p.events (e ∷ []), settled-append q.events (e ∷ []))

attach_to-Agree :
    (t : List Frame) (v : Value) (p q : Parser)
    → Agree p q
    → Agree (attach_to t v p) (attach_to t v q)
unfolding attach_to
attach_to-Agree [] v p q a = ground (
  arith,
  settled-append p.events (document_completed ∷ []),
  settled-append q.events (document_completed ∷ []),
)
attach_to-Agree (Frame.object ms k n ∷ below) v p q a = ground arith
attach_to-Agree (Frame.array vs n ∷ below) v p q a = ground arith

slot_pointer-Agree : (p q : Parser) → Agree p q → slot_pointer p ≡ slot_pointer q
unfolding slot_pointer
slot_pointer-Agree p q a = cc

attach-Agree : (v : Value) (p q : Parser) → Agree p q → Agree (attach v p) (attach v q)
unfolding attach
attach-Agree v p q a =
    subst
      (λ t.
        Agree (attach_to p.stack v (push_event (value_completed (slot_pointer p) v) p))
          (attach_to t v (push_event (value_completed (slot_pointer q) v) q)))
      a.stack
      (attach_to-Agree p.stack v _ _ (
        push_event-Agree _ _ p q (ap (λ path. value_completed path v) (slot_pointer-Agree p q a))
          a))

fail-Agree :
    (A : Type 0) (k : ParseErrorKind) (p q : Parser)
    → Agree p q
    → SameOutcome (fail {A = A} k p) (fail {A = A} k q)
unfolding fail
fail-Agree A k p q a = ground arith

close_frame-Agree :
    (t : List Frame) (b : ℕ) (p q : Parser)
    → Agree p q
    → SameOutcome (close_frame t b p) (close_frame t b q)
unfolding close_frame fail
close_frame-Agree [] b p q a = ground arith
close_frame-Agree (f ∷ below) b p q a = grind (arith, attach-Agree)

close_container-Agree :
    (b : ℕ) (p q : Parser) → Agree p q → SameOutcome (close_container b p) (close_container b q)
unfolding close_container
close_container-Agree b p q a =
    subst (λ t. SameOutcome (close_frame p.stack b p) (close_frame t b q)) a.stack
      (close_frame-Agree p.stack b p q a)

open_value-Agree :
    (x : Arm) (b : ℕ) (p q : Parser) → Agree p q → SameOutcome (open_value x b p) (open_value x b q)
unfolding open_value push_frame fail
open_value-Agree close_bracket b p q a =
    ground (arith, close_container-Agree b']' p q a, ap in_empty_array a.stack)
open_value-Agree _ b p q a = ground arith

announce-Agree : (b : ℕ) (p q : Parser) → Agree p q → Agree (announce b p) (announce b q)
unfolding announce
announce-Agree b p q a = elim (Option-cases (value_kind b)) [
  | inl e ↦ rw (e, announce) a
  | inr (kind, e) ↦
      rw (e, announce)
        (push_event-Agree _ _ _ _ (ap (λ path. value_started path kind) (slot_pointer-Agree p q a))
          (ground arith))
]

begin_value-Agree :
    (b : ℕ) (p q : Parser) → Agree p q → SameOutcome (begin_value b p) (begin_value b q)
unfolding begin_value
begin_value-Agree b p q a = open_value-Agree (arm b) b _ _ (announce-Agree b p q a)

dispatch-Agree :
    (e : Expect) (b : ℕ) (p q : Parser) → Agree p q → SameOutcome (dispatch e b p) (dispatch e b q)
unfolding dispatch fail
dispatch-Agree Expect.value b p q a = begin_value-Agree b p q a
dispatch-Agree _ b p q a = grind (arith, close_container-Agree)

step_structural-Agree :
    (b : ℕ) (p q : Parser) → Agree p q → SameOutcome (step_structural b p) (step_structural b q)
unfolding step_structural
step_structural-Agree b p q a =
    SameOutcome-if (is_blank b) _ _ _ _ (refl, a)
      (subst (λ e. SameOutcome (dispatch p.expect b p) (dispatch e b q)) a.expect
        (dispatch-Agree p.expect b p q a))

step_string-Agree :
    (s : StrState) (decoded : Bytes) (is_key : Bool) (pending b : ℕ) (p q : Parser)
    → Agree p q
    → SameOutcome
        (step_string s decoded is_key pending b p)
        (step_string s decoded is_key pending b q)
unfolding step_string close_string end_unicode end_surrogate fail
step_string-Agree raw decoded is_key pending b p q a = grind (arith, attach-Agree)
step_string-Agree backslash decoded is_key pending b p q a = ground arith
step_string-Agree (unicode n acc) decoded is_key pending b p q a = ground arith
step_string-Agree (surrogate_hex hi n acc) decoded is_key pending b p q a = ground arith
step_string-Agree _ decoded is_key pending b p q a = ground arith

close_number-Agree :
    (text : Bytes) (p q : Parser) → Agree p q → Agree (close_number text p) (close_number text q)
unfolding close_number
close_number-Agree text p q a = ground (
  arith,
  attach-Agree (number (record { text = text })) (record p { tok = idle })
      (record q { tok = idle }),
)

step_number-Agree :
    (text : Bytes) (s : NumState) (b : ℕ) (p q : Parser)
    → Agree p q
    → SameOutcome (step_number text s b p) (step_number text s b q)
unfolding step_number fail
step_number-Agree text s b p q a = grind (arith, close_number-Agree)

step_literal-Agree :
    (text : Bytes) (b : ℕ) (p q : Parser)
    → Agree p q
    → SameOutcome (step_literal text b p) (step_literal text b q)
unfolding step_literal fail
step_literal-Agree text b p q a = grind (arith, attach-Agree)

consumed-Agree :
    (c : Bool) (b : ℕ) (p q : Parser)
    → Agree p q
    → SameOutcome
        (if c then ok tt p else step_structural b p)
        (if c then ok tt q else step_structural b q)
consumed-Agree true b p q a = (refl, a)
consumed-Agree false b p q a = step_structural-Agree b p q a

step_tok-Agree :
    (t : Tok) (b : ℕ) (p q : Parser) → Agree p q → SameOutcome (step_tok t b p) (step_tok t b q)
unfolding step_tok
step_tok-Agree (str decoded state is_key pending) b p q a =
    step_string-Agree state decoded is_key pending b p q a
step_tok-Agree (num text state) b p q a =
    SameOutcome-bind (step_number text state b p) (step_number text state b q) _
      (step_number-Agree text state b p q a) (λ c x y e. consumed-Agree c b x y e)
step_tok-Agree (lit text) b p q a = step_literal-Agree text b p q a
step_tok-Agree idle b p q a = step_structural-Agree b p q a

pub step-Agree : (b : ℕ) (p q : Parser) → Agree p q → SameOutcome (step b p) (step b q)
step-Agree b p q a =
    subst (λ t. SameOutcome (step_tok p.tok b p) (step_tok t b q)) a.tok
      (step_tok-Agree p.tok b p q a)

closable_in-Agree : (e : Expect) (p q : Parser) → Agree p q → closable_in e p ≡ closable_in e q
unfolding closable_in
closable_in-Agree Expect.value p q a = ap in_empty_array a.stack
closable_in-Agree _ p q a = refl

closable-Agree : (p q : Parser) → Agree p q → closable p ≡ closable q
closable-Agree p q a = closable_in-Agree p.expect p q a ∙ ap (λ e. closable_in e q) a.expect

commit_tok-Agree : (t : Tok) (p q : Parser) → Agree p q → Agree (commit_tok t p) (commit_tok t q)
commit_tok-Agree idle p q a = ground (arith, closable-Agree p q a)
commit_tok-Agree _ p q a = a

pub advance-Agree : (p q : Parser) → Agree p q → Agree (advance p) (advance q)
unfolding advance
advance-Agree p q a =
    subst
      (λ t.
        Agree (commit_tok p.tok (record p { offset = p.offset + 1 }))
          (commit_tok t (record q { offset = q.offset + 1 })))
      a.tok (commit_tok-Agree p.tok _ _ (ground arith))

-- A report of progress is the only thing that the end of a chunk adds.
pub emit_progress-Agree : (t : Tok) (p : Parser) → Agree (emit_progress_of t p) p
unfolding emit_progress_of
emit_progress-Agree (str decoded state false pending) p = ground (
  arith,
  settled-append p.events (value_progressed (slot_pointer p) (stable_prefix decoded) ∷ []),
  append-nil (settled p.events),
)
emit_progress-Agree _ p = ground arith
