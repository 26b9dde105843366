-- ===== src/Parser/Paths/Steps.antt =====
-- The path of each event, over the steps of src/parser.rs.
use jawohl.Prelude.{
  ℕ, ◌≡◌, ◌≢◌, refl, ap, ◌∙◌, Bool, true, false, List, [], ◌∷◌, ◌++◌, none, arith, Bytes, take,
}
use mathlib.Core.Path.{subst}
use jawohl.Event.{Event, value_completed, document_completed}
use jawohl.Value.{Value, number}
use jawohl.Parser.State.{
  Expect, Frame, StrState, NumState, raw, backslash, unicode, surrogate_hex, Tok, idle, str, num,
  lit, Parser, fail, push_frame, slot_pointer, slot_suffix, path_len,
}
use jawohl.Parser.Structure.{
  Arm, close_bracket, attach, attach_to, close_container, close_frame, announce, open_value,
  begin_value, dispatch, step_structural,
}
use jawohl.Parser.Strings.{step_string, close_string, end_unicode, end_surrogate}
use jawohl.Parser.Numbers.{step_number, close_number}
use jawohl.Parser.Literals.{step_literal, literal_value}
use jawohl.Parser.Feed.{
  step, step_tok, emit_progress_of, emit_progress, finish, finish_from, finish_tok,
}
use jawohl.Parser.Valid.{path_of, Remembers, IsValid}
use jawohl.Parser.Valid.Steps.{take-path_of, announce-IsValid, close_number-IsValid}
use jawohl.Parser.Paths.{
  parse-slots, outside, Spells, Names, Named, Tells, Since-push, Since-self, Remembered,
  Spells-slot, Fits-Remembered,
}

module _ (stack : List Frame) (old : List Event) where
  attach_to-Named :
      (frames : List Frame) (v : Value) (p : Parser)
      → Named stack old p
      → Named stack old (attach_to frames v p)
  unfolding attach_to
  attach_to-Named [] v p h = Since-push stack old p.events document_completed h tt
  attach_to-Named (Frame.object members k n ∷ below) v p h = h
  attach_to-Named (Frame.array items n ∷ below) v p h = h

  attach-Named :
      (v : Value) (p : Parser)
      → Names stack (value_completed (slot_pointer p) v)
      → Named stack old p
      → Named stack old (attach v p)
  unfolding attach
  attach-Named v p n h =
      attach_to-Named p.stack v _
        (Since-push stack old p.events (value_completed (slot_pointer p) v) h n)

  -- A frame that is cut off leaves the path of the slot that it stood in.
  Spells-cut :
      (frame : Frame) (below : List Frame) (path : Bytes)
      → path ≡ path_of (frame ∷ below)
      → Remembers frame below
      → below ≡ outside stack
      → Spells (outside stack) (take (path_len frame) path ++ slot_suffix below)
  Spells-cut frame below path e r same =
      rw (e, take-path_of (path_len frame) below r, ← same) (parse-slots below)

  close_frame-Tells :
      (frames : List Frame) (b : ℕ) (p : Parser)
      → p.path_prefix ≡ path_of frames
      → Remembered frames
      → outside frames ≡ outside stack
      → Named stack old p
      → Tells stack old (close_frame frames b p)
  unfolding close_frame fail Remembered slot_pointer
  close_frame-Tells [] b p e r same h = h
  close_frame-Tells (Frame.object ms k n ∷ below) b p e r same h =
      let cut = Spells-cut (Frame.object ms k n) below p.path_prefix e r same in
      grind (arith, attach-Named)
  close_frame-Tells (Frame.array vs n ∷ below) b p e r same h =
      let cut = Spells-cut (Frame.array vs n) below p.path_prefix e r same in
      grind (arith, attach-Named)

  close_container-Tells :
      (b : ℕ) (p : Parser)
      → IsValid 1 p
      → outside p.stack ≡ outside stack
      → Named stack old p
      → Tells stack old (close_container b p)
  unfolding close_container
  close_container-Tells b p v same h =
      close_frame-Tells p.stack b p v.path (Fits-Remembered p.expect p.stack v.fits) same h

  announce-Named :
      (b : ℕ) (p : Parser)
      → Spells stack (slot_pointer p)
      → Named stack old p
      → Named stack old (announce b p)
  unfolding announce
  announce-Named b p s h = grind (arith, Since-push stack old)

  open_value-Tells :
      (a : Arm) (b : ℕ) (p : Parser)
      → IsValid 1 p
      → outside p.stack ≡ outside stack
      → Named stack old p
      → Tells stack old (open_value a b p)
  unfolding open_value fail push_frame
  open_value-Tells close_bracket b p v same h = grind (arith, close_container-Tells)
  open_value-Tells _ b p v same h = ground arith

  stack-announce : (b : ℕ) (p : Parser) → (announce b p).stack ≡ p.stack
  unfolding announce
  stack-announce b p = ground arith

  begin_value-Tells :
      (b : ℕ) (p : Parser)
      → IsValid 1 p
      → p.stack ≡ stack
      → Named stack old p
      → Tells stack old (begin_value b p)
  unfolding begin_value
  begin_value-Tells b p v same h =
      open_value-Tells _ b _ (announce-IsValid b p v) (ap outside (stack-announce b p ∙ same))
        (announce-Named b p (subst (λ s. Spells s (slot_pointer p)) same (Spells-slot p v.path)) h)

  dispatch-Tells :
      (e : Expect) (b : ℕ) (p : Parser)
      → IsValid 1 p
      → (e ≡ Expect.value → p.stack ≡ stack)
      → outside p.stack ≡ outside stack
      → Named stack old p
      → Tells stack old (dispatch e b p)
  unfolding dispatch fail
  dispatch-Tells Expect.value b p v all same h = begin_value-Tells b p v (all refl) h
  dispatch-Tells _ b p v all same h = grind (arith, close_container-Tells)

  step_structural-Tells :
      (b : ℕ) (p : Parser)
      → IsValid 1 p
      → (p.expect ≡ Expect.value → p.stack ≡ stack)
      → outside p.stack ≡ outside stack
      → Named stack old p
      → Tells stack old (step_structural b p)
  unfolding step_structural
  step_structural-Tells b p v all same h = grind (arith, dispatch-Tells)

  step_string-Tells :
      (s : StrState) (decoded : Bytes) (is_key : Bool) (pending b : ℕ) (p : Parser)
      → Spells stack (slot_pointer (record p { tok = idle }))
      → Named stack old p
      → Tells stack old (step_string s decoded is_key pending b p)
  unfolding step_string close_string end_unicode end_surrogate fail
  step_string-Tells raw decoded true pending b p here h = grind arith
  step_string-Tells raw decoded false pending b p here h = grind (arith, attach-Named)
  step_string-Tells backslash decoded is_key pending b p here h = ground arith
  step_string-Tells (unicode n acc) decoded is_key pending b p here h = ground arith
  step_string-Tells (surrogate_hex hi n acc) decoded is_key pending b p here h = ground arith
  step_string-Tells _ decoded is_key pending b p here h = ground arith

  close_number-Named :
      (text : Bytes) (p : Parser)
      → Spells stack (slot_pointer (record p { tok = idle }))
      → Named stack old p
      → Named stack old (close_number text p)
  unfolding close_number
  close_number-Named text p here h =
      attach-Named (number (record { text = text })) (record p { tok = idle }) here h

  outside-attach : (v : Value) (p : Parser) → outside (attach v p).stack ≡ outside p.stack
  unfolding attach attach_to
  outside-attach v p = ground arith

  outside-close_number :
      (text : Bytes) (p : Parser) → outside (close_number text p).stack ≡ outside p.stack
  unfolding close_number
  outside-close_number text p =
      outside-attach (number (record { text = text })) (record p { tok = idle })

  expect-close_number : (text : Bytes) (p : Parser) → (close_number text p).expect ≢ Expect.value
  unfolding close_number attach attach_to
  expect-close_number text p e = ground arith

  step_literal-Tells :
      (text : Bytes) (b : ℕ) (p : Parser)
      → Spells stack (slot_pointer (record p { tok = idle }))
      → Named stack old p
      → Tells stack old (step_literal text b p)
  unfolding step_literal literal_value fail
  step_literal-Tells text b p here h = grind (arith, attach-Named)

  delimited-Tells :
      (text : Bytes) (s : NumState) (b : ℕ) (p : Parser)
      → p.tok ≡ num text s
      → p.stack ≡ stack
      → IsValid 0 p
      → Spells stack (slot_pointer (record p { tok = idle }))
      → Named stack old p
      → Tells stack old (step_structural b (close_number text p))
  delimited-Tells text s b p t same v here h =
      step_structural-Tells b _ (close_number-IsValid text s p t v)
        (λ e. absurd (expect-close_number text p e)) (outside-close_number text p ∙ ap outside same)
        (close_number-Named text p here h)

  step_tok-Tells :
      (t : Tok) (b : ℕ) (p : Parser)
      → p.tok ≡ t
      → p.stack ≡ stack
      → IsValid 0 p
      → Spells stack (slot_pointer (record p { tok = idle }))
      → Named stack old p
      → Tells stack old (step_tok t b p)
  unfolding step_tok step_number fail
  step_tok-Tells (str decoded state is_key pending) b p t same v here h =
      step_string-Tells state decoded is_key pending b p here h
  step_tok-Tells (num text state) b p t same v here h =
      grind (arith, delimited-Tells text state b p)
  step_tok-Tells (lit text) b p t same v here h = step_literal-Tells text b p here h
  step_tok-Tells idle b p t same v here h =
      step_structural-Tells b p (ground arith) (λ e. same) (ap outside same) h

  emit_progress-Named :
      (t : Tok) (p : Parser)
      → Spells stack (slot_pointer p)
      → Named stack old p
      → Named stack old (emit_progress_of t p)
  unfolding emit_progress_of
  emit_progress-Named t p here h = grind (arith, Since-push stack old)

  finish_tok-Tells :
      (t : Tok) (p : Parser)
      → Spells stack (slot_pointer (record p { tok = idle }))
      → Named stack old p
      → Tells stack old (finish_tok t p)
  unfolding fail
  finish_tok-Tells (num text state) p here h = grind (arith, close_number-Named text p)
  finish_tok-Tells _ p here h = ground arith

-- Each event names its slot: the events that a byte adds to the log of a well-formed parser that has
-- not failed, that the end of a chunk adds, and that the end of the input adds, have paths that parse
-- to the names of the slots, from the root on, of all containers that are open before the byte; only a
-- container that is complete has the path of the slot that it stood in, outside the innermost open
-- one. So it is where the byte or the end is refused, too, and what the log held before stays at its
-- front.
pub events_name_slots :
    (p : Parser)
    → IsValid 0 p
    → p.failed ≡ none
    → ((b : ℕ) → Tells p.stack p.events (step b p))
      × Named p.stack p.events (emit_progress p)
      × Tells p.stack p.events (finish p)
unfolding finish
events_name_slots p v fresh =
    let here : Spells p.stack (slot_pointer (record p { tok = idle })) =
      Spells-slot (record p { tok = idle }) v.path in
    let kept = Since-self p.stack p.events in
    (
      λ b. step_tok-Tells p.stack p.events p.tok b p refl refl v here kept,
      emit_progress-Named p.stack p.events p.tok p (Spells-slot p v.path) kept,
      rw (ap (λ o. finish_from o p) fresh) (finish_tok-Tells p.stack p.events p.tok p here kept),
    )
