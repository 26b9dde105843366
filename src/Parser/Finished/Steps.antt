-- ===== src/Parser/Finished/Steps.antt =====
-- The invariant on finished values, over the steps of src/parser.rs.
use jawohl.Prelude.{
  ℕ, ◌≡◌, refl, ap, Bool, true, false, List, [], ◌∷◌, ◌++◌, none, some, arith, Bytes,
}
use jawohl.Event.{Event, value_completed, document_completed}
use jawohl.Utf8.{well_formed}
use jawohl.Value.{Value, number}
use jawohl.Parser.State.{
  Expect, Frame, StrState, raw, backslash, unicode, surrogate_hex, NumState, terminable, Tok, idle,
  str, num, lit, Parser, Outcome, fail, push_frame, slot_pointer, push_event,
}
use jawohl.Parser.Structure.{
  Arm, arm, close_bracket, digit, attach, attach_to, close_container, close_frame, announce,
  open_value, begin_value, dispatch, step_structural,
}
use jawohl.Parser.Strings.{step_string, close_string, end_unicode, end_surrogate}
use jawohl.Parser.Numbers.{num_next, step_number, close_number}
use jawohl.Parser.Literals.{step_literal, literal_value}
use jawohl.Parser.Feed.{
  step_tok, advance, closable_in, emit_progress_of, feed, finish, finish_from, finish_tok,
}
use jawohl.Parser.Ensures.{Ensures, feed_bytes-Ensures, feed-Ensures}
use jawohl.Parser.Grammar.{num_scan, num_start, num_run, num_run-append}
use jawohl.Parser.Grammar.Sound.{accepted-IsJsonNumber}
use jawohl.Parser.Valid.Steps.{Any, tok-close_number}
use jawohl.Parser.Finished.{
  Finished, FinishedItems-push, FinishedMembers-push, FinishedEvents-push, FinishedEvent,
  HoldsFinished,
}

well_formed-empty : well_formed [] ≡ true
unfolding well_formed
well_formed-empty = refl

attach_to-HoldsFinished :
    (stack : List Frame) (v : Value) (p : Parser)
    → p.stack ≡ stack
    → Finished v
    → p.tok ≡ idle
    → HoldsFinished p
    → HoldsFinished (attach_to stack v p)
unfolding attach_to
attach_to-HoldsFinished [] v p s f t h =
    ground (arith, FinishedEvents-push p.events document_completed)
attach_to-HoldsFinished (Frame.object ms none n ∷ below) v p s f t h =
    ground (arith, FinishedMembers-push ms [] v, well_formed-empty)
attach_to-HoldsFinished (Frame.object ms (some k) n ∷ below) v p s f t h =
    ground (arith, FinishedMembers-push ms k v)
attach_to-HoldsFinished (Frame.array vs n ∷ below) v p s f t h =
    ground (arith, FinishedItems-push vs v)

push_event-HoldsFinished :
    (e : Event) (p : Parser) → FinishedEvent e → HoldsFinished p → HoldsFinished (push_event e p)
push_event-HoldsFinished e p f h = ground (arith, FinishedEvents-push p.events e)

attach-HoldsFinished :
    (v : Value) (p : Parser)
    → Finished v
    → p.tok ≡ idle
    → HoldsFinished p
    → HoldsFinished (attach v p)
unfolding attach
attach-HoldsFinished v p f t h =
    attach_to-HoldsFinished p.stack v _ refl f t
      (push_event-HoldsFinished (value_completed (slot_pointer p) v) p f h)

abbrev pub Holds : {A : Type 0} → Outcome A → Type 0
Holds o = Ensures HoldsFinished Any o

close_frame-HoldsFinished :
    (stack : List Frame) (b : ℕ) (p : Parser)
    → p.stack ≡ stack
    → p.tok ≡ idle
    → HoldsFinished p
    → Holds (close_frame stack b p)
unfolding close_frame fail Finished
close_frame-HoldsFinished [] b p s t h = tt
close_frame-HoldsFinished (Frame.object ms k n ∷ below) b p s t h =
    grind (arith, attach-HoldsFinished)
close_frame-HoldsFinished (Frame.array vs n ∷ below) b p s t h = grind (arith, attach-HoldsFinished)

close_container-HoldsFinished :
    (b : ℕ) (p : Parser) → p.tok ≡ idle → HoldsFinished p → Holds (close_container b p)
unfolding close_container
close_container-HoldsFinished b p t h = close_frame-HoldsFinished p.stack b p refl t h

arm-digit : (b : ℕ) → arm b ≡ digit → num_scan (b ∷ []) ≡ some NumState.int
unfolding arm num_scan num_start
arm-digit b e = ground arith

open_value-HoldsFinished :
    (a : Arm) (b : ℕ) (p : Parser)
    → arm b ≡ a
    → p.tok ≡ idle
    → HoldsFinished p
    → Holds (open_value a b p)
unfolding open_value fail push_frame FinishedItems-push FinishedMembers-push Finished num_scan
    num_start
open_value-HoldsFinished close_bracket b p e t h = grind (arith, close_container-HoldsFinished)
open_value-HoldsFinished digit b p e t h = ground (arith, arm-digit b e)
open_value-HoldsFinished _ b p e t h = ground arith

announce-HoldsFinished : (b : ℕ) (p : Parser) → HoldsFinished p → HoldsFinished (announce b p)
unfolding announce
announce-HoldsFinished b p h = grind (arith, FinishedEvents-push)

begin_value-HoldsFinished :
    (b : ℕ) (p : Parser) → p.tok ≡ idle → HoldsFinished p → Holds (begin_value b p)
unfolding begin_value announce
begin_value-HoldsFinished b p t h =
    open_value-HoldsFinished (arm b) b _ refl (ground arith) (announce-HoldsFinished b p h)

dispatch-HoldsFinished :
    (e : Expect) (b : ℕ) (p : Parser) → p.tok ≡ idle → HoldsFinished p → Holds (dispatch e b p)
unfolding dispatch fail
dispatch-HoldsFinished Expect.value b p t h = begin_value-HoldsFinished b p t h
dispatch-HoldsFinished _ b p t h = grind (arith, close_container-HoldsFinished)

step_structural-HoldsFinished :
    (b : ℕ) (p : Parser) → p.tok ≡ idle → HoldsFinished p → Holds (step_structural b p)
unfolding step_structural
step_structural-HoldsFinished b p t h = grind (arith, dispatch-HoldsFinished)

step_string-HoldsFinished :
    (s : StrState) (decoded : Bytes) (is_key : Bool) (pending b : ℕ) (p : Parser)
    → HoldsFinished p
    → Holds (step_string s decoded is_key pending b p)
unfolding step_string close_string end_unicode end_surrogate fail Finished
step_string-HoldsFinished raw decoded true pending b p h = ground arith
step_string-HoldsFinished raw decoded false pending b p h = grind (arith, attach-HoldsFinished)
step_string-HoldsFinished backslash decoded is_key pending b p h = ground arith
step_string-HoldsFinished (unicode n acc) decoded is_key pending b p h = ground arith
step_string-HoldsFinished (surrogate_hex hi n acc) decoded is_key pending b p h = ground arith
step_string-HoldsFinished _ decoded is_key pending b p h = ground arith

num_scan-append :
    (text : Bytes) (b : ℕ) (s : NumState)
    → num_scan text ≡ some s
    → num_scan (text ++ b ∷ []) ≡ num_next s b
unfolding num_scan num_run
num_scan-append [] b s e = cc
num_scan-append (x ∷ xs) b s e = rw (num_run-append (num_start x) xs (b ∷ [])) (rw e)

recommit-HoldsFinished :
    (p : Parser) → HoldsFinished p → HoldsFinished (record p { commit = p.offset })
recommit-HoldsFinished p h = ground arith

Finished-number :
    (text : Bytes) (s : NumState)
    → num_scan text ≡ some s
    → terminable s ≡ true
    → Finished (number (record { text = text }))
unfolding Finished
Finished-number text s scanned e = accepted-IsJsonNumber text (rw scanned e)

close_number-HoldsFinished :
    (text : Bytes) (s : NumState) (p : Parser)
    → terminable s ≡ true
    → p.tok ≡ num text s
    → HoldsFinished p
    → HoldsFinished (close_number text p)
unfolding close_number
close_number-HoldsFinished text s p e t h = recommit-HoldsFinished _ (
    attach-HoldsFinished (number (record { text = text })) (record p { tok = idle })
      (Finished-number text s (ground arith) e) refl (ground arith))

Finished-literal : (text : Bytes) → Finished (literal_value text)
unfolding literal_value Finished
Finished-literal text = ground arith

step_literal-HoldsFinished :
    (text : Bytes) (b : ℕ) (p : Parser) → HoldsFinished p → Holds (step_literal text b p)
unfolding step_literal fail
step_literal-HoldsFinished text b p h = grind (arith, attach-HoldsFinished, Finished-literal)

step_tok-HoldsFinished :
    (t : Tok) (b : ℕ) (p : Parser) → p.tok ≡ t → HoldsFinished p → Holds (step_tok t b p)
unfolding step_tok step_number fail
step_tok-HoldsFinished (str decoded state is_key pending) b p t h =
    step_string-HoldsFinished state decoded is_key pending b p h
step_tok-HoldsFinished (num text state) b p t h = grind (
  arith,
  num_scan-append text b state,
  close_number-HoldsFinished text state p,
  tok-close_number,
  step_structural-HoldsFinished,
)
step_tok-HoldsFinished (lit text) b p t h = step_literal-HoldsFinished text b p h
step_tok-HoldsFinished idle b p t h = step_structural-HoldsFinished b p t h

advance-HoldsFinished : (p : Parser) → HoldsFinished p → HoldsFinished (advance p)
unfolding advance closable_in
advance-HoldsFinished p h = ground arith

emit_progress-HoldsFinished :
    (t : Tok) (p : Parser) → HoldsFinished p → HoldsFinished (emit_progress_of t p)
unfolding emit_progress_of
emit_progress-HoldsFinished t p h = grind (arith, FinishedEvents-push)

finish_tok-HoldsFinished :
    (t : Tok) (p : Parser) → p.tok ≡ t → HoldsFinished p → Holds (finish_tok t p)
unfolding fail
finish_tok-HoldsFinished (num text state) p t h =
    grind (arith, close_number-HoldsFinished text state p)
finish_tok-HoldsFinished _ p t h = ground arith

pub feed-HoldsFinished :
    (bytes : Bytes) (p : Parser) → p.failed ≡ none → HoldsFinished p → Holds (feed bytes p)
feed-HoldsFinished bytes p e h =
    feed-Ensures HoldsFinished HoldsFinished Any (λ q i. emit_progress-HoldsFinished q.tok q i)
      bytes p e
      (feed_bytes-Ensures HoldsFinished HoldsFinished Any
        (λ b q i. step_tok-HoldsFinished q.tok b q refl i) advance-HoldsFinished bytes p h)

pub finish-HoldsFinished : (p : Parser) → p.failed ≡ none → HoldsFinished p → Holds (finish p)
unfolding finish
finish-HoldsFinished p e h =
    rw (ap (λ o. finish_from o p) e) (finish_tok-HoldsFinished p.tok p refl h)
