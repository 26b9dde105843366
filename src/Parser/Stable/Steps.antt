-- ===== src/Parser/Stable/Steps.antt =====
-- The settled paths, over the steps of src/parser.rs.
use jawohl.Prelude.{ℕ, ◌≡◌, refl, ap, Bool, List, [], ◌∷◌, ◌≢◌, Option, none, arith, Bytes}
use jawohl.Error.{ParseErrorKind, ParseError, mismatched_close}
use jawohl.Value.{Value, number}
use jawohl.Parser.State.{
  Expect, Frame, object, array, StrState, raw, backslash, unicode, surrogate_hex, Tok, idle, str,
  num, lit, Parser, Outcome, fail, push_frame,
}
use jawohl.Parser.Structure.{
  Arm, close_bracket, attach, attach_to, close_container, close_frame, announce, open_value,
  begin_value, dispatch, step_structural, frame_value,
}
use jawohl.Parser.Strings.{step_string, close_string, end_unicode, end_surrogate, set_pending_key}
use jawohl.Parser.Numbers.{step_number, close_number}
use jawohl.Parser.Literals.{step_literal}
use jawohl.Parser.Feed.{
  finish_tok, finish, finish_from, step_tok, step, advance, closable_in, emit_progress_of, feed,
}
use jawohl.Parser.Ensures.{Ensures, Ensures-both, feed_bytes-Ensures, feed-Ensures}
use jawohl.Parser.Valid.{IsValid}
use jawohl.Parser.Valid.Steps.{Any, step_tok-IsValid, advance-IsValid}
use jawohl.Parser.Stable.{Frozen, inner, outer}
use jawohl.Parser.Stable.Frames.{filled-Frozen, closed-Frozen, root-Frozen, rootless}

pub unrooted : (p : Parser) → IsValid 0 p → p.expect ≢ Expect.done → p.root ≡ none
unrooted p v e = ground arith

rooted-close_number :
    (text : Bytes) (p : Parser)
    → p.root ≡ none
    → (close_number text p).expect ≢ Expect.done
    → (close_number text p).root ≡ none
unfolding close_number attach attach_to
rooted-close_number text p n e = ground arith

abbrev pub Settled : List Bytes → Value → Parser → Type 0
Settled tokens u p = Frozen tokens u p.stack p.root

-- But for a closing bracket that does not match the open one.
abbrev pub Unless : ParseErrorKind → Type 0 → Type 0
Unless (mismatched_close b o) P = Unit
Unless _ P = P

module _ (tokens : List Bytes) (u : Value) where
  -- A refused byte keeps it settled, too, but for such a bracket, with which a frame is lost.
  abbrev pub Refused : ParseError → Parser → Type 0
  Refused e p = Unless e.kind (Settled tokens u p)

  abbrev Keeps : {A : Type 0} → Outcome A → Type 0
  Keeps o = Ensures (Settled tokens u) Refused o

  attach_to-Settled :
      (stack : List Frame) (v : Value) (p : Parser)
      → p.root ≡ none
      → Frozen tokens u stack p.root
      → Settled tokens u (attach_to stack v p)
  unfolding attach_to
  attach_to-Settled [] v p n h = absurd (rootless refl n h)
  attach_to-Settled (object ms k m ∷ below) v p n h = filled-Frozen v p.root h
  attach_to-Settled (array vs m ∷ below) v p n h = filled-Frozen v p.root h

  attach-Settled :
      (v : Value) (p : Parser) → p.root ≡ none → Settled tokens u p → Settled tokens u (attach v p)
  unfolding attach
  attach-Settled v p n h = attach_to-Settled p.stack v _ n h

  -- The frame is popped, and its value attached.
  popped-Settled :
      (f : Frame) (below : List Frame) (p : Parser)
      → p.stack ≡ below
      → p.root ≡ none
      → Frozen tokens u (f ∷ below) p.root
      → Settled tokens u (attach_to below (frame_value f) p)
  unfolding attach_to
  popped-Settled f [] p e n h = ground (arith, root-Frozen p.root h)
  popped-Settled f (object ms k m ∷ below) p e n h = closed-Frozen p.root h
  popped-Settled f (array vs m ∷ below) p e n h = closed-Frozen p.root h

  close_frame-Settled :
      (stack : List Frame) (b : ℕ) (p : Parser)
      → p.root ≡ none
      → Frozen tokens u stack p.root
      → Keeps (close_frame stack b p)
  unfolding close_frame fail attach
  close_frame-Settled [] b p n h = absurd (rootless refl n h)
  close_frame-Settled (f ∷ below) b p n h = grind (arith, popped-Settled)

  close_container-Settled :
      (b : ℕ) (p : Parser) → p.root ≡ none → Settled tokens u p → Keeps (close_container b p)
  unfolding close_container
  close_container-Settled b p n h = close_frame-Settled p.stack b p n h

  pushed-Frozen :
      (f : Frame) (stack : List Frame) (root : Option Value)
      → root ≡ none
      → Frozen tokens u stack root
      → Frozen tokens u (f ∷ stack) root
  pushed-Frozen f [] root n h = absurd (rootless refl n h)
  pushed-Frozen f (g ∷ below) root n h = outer h

  open_value-Settled :
      (a : Arm) (b : ℕ) (p : Parser) → p.root ≡ none → Settled tokens u p → Keeps (open_value a b p)
  unfolding open_value push_frame fail
  open_value-Settled close_bracket b p n h = grind (arith, close_container-Settled)
  open_value-Settled _ b p n h = grind (arith, pushed-Frozen)

  begin_value-Settled :
      (b : ℕ) (p : Parser) → p.root ≡ none → Settled tokens u p → Keeps (begin_value b p)
  unfolding begin_value announce
  begin_value-Settled b p n h = open_value-Settled _ b _ (ground arith) (ground arith)

  dispatch-Settled :
      (e : Expect) (b : ℕ) (p : Parser)
      → (e ≢ Expect.done → p.root ≡ none)
      → Settled tokens u p
      → Keeps (dispatch e b p)
  unfolding dispatch fail
  dispatch-Settled Expect.value b p n h = begin_value-Settled b p (ground arith) h
  dispatch-Settled _ b p n h = grind (arith, close_container-Settled)

  key-Frozen :
      (s : Bytes) (stack : List Frame) (root : Option Value)
      → Frozen tokens u stack root
      → Frozen tokens u (set_pending_key s stack) root
  key-Frozen s (object ms k n ∷ below) root (inner before rest t w l a d eq) =
      inner before rest t w l a d eq
  key-Frozen s (object ms k n ∷ below) root (outer h) = outer h
  key-Frozen s (array vs n ∷ below) root h = h
  key-Frozen s [] root h = h

  step_string-Settled :
      (s : StrState) (decoded : Bytes) (is_key : Bool) (pending b : ℕ) (p : Parser)
      → p.root ≡ none
      → Settled tokens u p
      → Keeps (step_string s decoded is_key pending b p)
  unfolding step_string close_string end_unicode end_surrogate fail
  step_string-Settled raw decoded is_key pending b p n h = grind (arith, attach-Settled, key-Frozen)
  step_string-Settled backslash decoded is_key pending b p n h = ground arith
  step_string-Settled (unicode m acc) decoded is_key pending b p n h = ground arith
  step_string-Settled (surrogate_hex hi m acc) decoded is_key pending b p n h = ground arith
  step_string-Settled _ decoded is_key pending b p n h = ground arith

  step_literal-Settled :
      (text : Bytes) (b : ℕ) (p : Parser)
      → p.root ≡ none
      → Settled tokens u p
      → Keeps (step_literal text b p)
  unfolding step_literal fail
  step_literal-Settled text b p n h = grind (arith, attach-Settled)

  step_structural-Settled :
      (b : ℕ) (p : Parser)
      → (p.expect ≢ Expect.done → p.root ≡ none)
      → Settled tokens u p
      → Keeps (step_structural b p)
  unfolding step_structural
  step_structural-Settled b p n h = grind (arith, dispatch-Settled)

  close_number-Settled :
      (text : Bytes) (p : Parser)
      → p.root ≡ none
      → Settled tokens u p
      → Settled tokens u (close_number text p)
  unfolding close_number
  close_number-Settled text p n h =
      attach-Settled (number (record { text = text })) (record p { tok = idle }) n h

  step_tok-Settled :
      (t : Tok) (b : ℕ) (p : Parser)
      → p.tok ≡ t
      → IsValid 0 p
      → Settled tokens u p
      → Keeps (step_tok t b p)
  unfolding step_tok step_number fail
  step_tok-Settled (str decoded state is_key pending) b p t v h =
      step_string-Settled state decoded is_key pending b p (unrooted p v (ground arith)) h
  step_tok-Settled (num text state) b p t v h =
      let n = unrooted p v (ground arith) in
      grind (
        arith,
        close_number-Settled text p n h,
        rooted-close_number text p n,
        step_structural-Settled,
      )
  step_tok-Settled (lit text) b p t v h =
      step_literal-Settled text b p (unrooted p v (ground arith)) h
  step_tok-Settled idle b p t v h = step_structural-Settled b p (unrooted p v) h

  advance-Settled : (p : Parser) → Settled tokens u p → Settled tokens u (advance p)
  unfolding advance closable_in
  advance-Settled p h = ground arith

  emit_progress-Settled :
      (t : Tok) (p : Parser) → Settled tokens u p → Settled tokens u (emit_progress_of t p)
  unfolding emit_progress_of
  emit_progress-Settled t p h = grind arith

  SettledAt : ℕ → Parser → Type 0
  SettledAt slack p = IsValid slack p × Settled tokens u p

  -- A chunk keeps the path settled.
  pub feed-Settled :
      (bytes : Bytes) (p : Parser)
      → p.failed ≡ none
      → IsValid 0 p
      → Settled tokens u p
      → Ensures (Settled tokens u) Refused (feed bytes p)
  unfolding SettledAt
  feed-Settled bytes p fresh v h =
      feed-Ensures (SettledAt 0) (Settled tokens u) Refused
        (λ q i. emit_progress-Settled q.tok q i.1) bytes p fresh
        (feed_bytes-Ensures (SettledAt 0) (SettledAt 1) Refused
          (λ b q i.
            Ensures-both (IsValid 1) (Settled tokens u) Any Refused (step b q)
              (step_tok-IsValid q.tok b q refl i.0) (step_tok-Settled q.tok b q refl i.0 i.1))
          (λ q j. (advance-IsValid q j.0, advance-Settled q j.1)) bytes p (v, h))

  finish_tok-Settled :
      (t : Tok) (p : Parser) → p.tok ≡ t → IsValid 0 p → Settled tokens u p → Keeps (finish_tok t p)
  unfolding fail
  finish_tok-Settled (num text state) p t v h =
      grind (arith, close_number-Settled text p (unrooted p v (ground arith)) h)
  finish_tok-Settled (lit text) p t v h = ground arith
  finish_tok-Settled idle p t v h = h
  finish_tok-Settled (str decoded state is_key pending) p t v h = h

  -- So does the end of the input.
  pub finish-Settled :
      (p : Parser) → p.failed ≡ none → IsValid 0 p → Settled tokens u p → Keeps (finish p)
  unfolding finish
  finish-Settled p fresh v h =
      rw (ap (λ o. finish_from o p) fresh) (finish_tok-Settled p.tok p refl v h)
