-- ===== src/Parser/Valid/Steps.antt =====
-- Well-formedness, over the steps of src/parser.rs.
use jawohl.Prelude.{
  ℕ, ◌≤◌, ◌≡◌, refl, ap, Bool, true, false, List, [], ◌∷◌, ◌++◌, none, some, arith, length, take,
  take_append, Bytes,
}
use jawohl.Error.{ParseError}
use jawohl.Value.{Value, number}
use jawohl.Parser.State.{
  Expect, key_or_end, comma_or_end, Frame, object, array, StrState, raw, backslash, unicode,
  surrogate_hex, NumState, Tok, idle, str, num, lit, Parser, Outcome, slot_suffix, path_len, fail,
  push_frame,
}
use jawohl.Parser.Structure.{
  Arm, brace, bracket, close_bracket, attach, attach_to, close_container, close_frame, announce,
  open_value, begin_value, dispatch, step_structural,
}
use jawohl.Parser.Strings.{step_string, close_string, end_unicode, end_surrogate}
use jawohl.Parser.Numbers.{step_number, close_number}
use jawohl.Parser.Literals.{step_literal}
use jawohl.Parser.Feed.{
  step_tok, advance, closable_in, emit_progress_of, finish, finish_from, finish_tok,
}
use jawohl.Parser.Ensures.{Ensures}
use jawohl.Parser.Valid.{path_of, Filling, IsValid}

-- What `attach` needs: a slot to fill.
record HasSlot (p : Parser) : Type 0 where
  slot : Filling p.stack
  path : p.path_prefix ≡ path_of p.stack
  free : p.tok ≡ idle
  unrooted : p.root ≡ none
  committed : p.commit ≤ p.offset

attach_to-IsValid :
    (stack : List Frame) (v : Value) (p : Parser)
    → p.stack ≡ stack
    → HasSlot p
    → IsValid 1 (attach_to stack v p)
unfolding attach_to
attach_to-IsValid [] v p e h = ground arith
attach_to-IsValid (object members none n ∷ below) v p e h = ground arith
attach_to-IsValid (object members (some k) n ∷ below) v p e h = ground arith
attach_to-IsValid (array items n ∷ below) v p e h = ground arith

attach-IsValid : (v : Value) (p : Parser) → HasSlot p → IsValid 1 (attach v p)
unfolding attach
attach-IsValid v p h = attach_to-IsValid p.stack v _ refl (record {
  slot = h.slot;
  path = h.path;
  free = h.free;
  unrooted = h.unrooted;
  committed = h.committed;
})

-- A step ends well-formed, or in an error.
abbrev pub Any : ParseError → Parser → Type 0
Any e p = Unit

abbrev pub Keeps : {A : Type 0} → Outcome A → Type 0
Keeps o = Ensures (IsValid 1) Any o

-- The innermost frame, if there is one, was pushed on a slot.
abbrev Nested : List Frame → Type 0
Nested [] = Unit
Nested (object members pending_key n ∷ below) = (n ≡ length (path_of below)) × Filling below
Nested (array items n ∷ below) = (n ≡ length (path_of below)) × Filling below

-- What closing a container needs.
record CanClose (p : Parser) : Type 0 where
  nested : Nested p.stack
  path : p.path_prefix ≡ path_of p.stack
  free : p.tok ≡ idle
  unrooted : p.root ≡ none
  committed : p.commit ≤ p.offset

-- Cutting the path at the length that a frame remembers restores the path before the frame.
pub take-path_of :
    (n : ℕ) (below : List Frame)
    → n ≡ length (path_of below)
    → take n (path_of below ++ slot_suffix below) ≡ path_of below
take-path_of n below e = rw e (take_append (path_of below) (slot_suffix below))

close_frame-IsValid :
    (stack : List Frame) (b : ℕ) (p : Parser)
    → p.stack ≡ stack
    → CanClose p
    → Keeps (close_frame stack b p)
unfolding close_frame fail path_len
close_frame-IsValid [] b p s h = tt
close_frame-IsValid (object members k n ∷ below) b p s h =
    grind (arith, attach-IsValid, take-path_of)
close_frame-IsValid (array items n ∷ below) b p s h = grind (arith, attach-IsValid, take-path_of)

close_container-IsValid : (b : ℕ) (p : Parser) → CanClose p → Keeps (close_container b p)
unfolding close_container
close_container-IsValid b p h = close_frame-IsValid p.stack b p refl h

open_value-IsValid :
    (a : Arm) (b : ℕ) (p : Parser)
    → p.expect ≡ Expect.value
    → p.tok ≡ idle
    → IsValid 1 p
    → Keeps (open_value a b p)
unfolding open_value fail push_frame
open_value-IsValid brace b p e t v = ground arith
open_value-IsValid bracket b p e t v = ground arith
open_value-IsValid close_bracket b p e t v = grind (arith, close_container-IsValid)
open_value-IsValid _ b p e t v = ground arith

pub announce-IsValid : (b : ℕ) (p : Parser) → IsValid 1 p → IsValid 1 (announce b p)
unfolding announce
announce-IsValid b p v = ground arith

begin_value-IsValid :
    (b : ℕ) (p : Parser)
    → p.expect ≡ Expect.value
    → p.tok ≡ idle
    → IsValid 1 p
    → Keeps (begin_value b p)
unfolding begin_value announce
begin_value-IsValid b p e t v =
    open_value-IsValid _ b _ (ground arith) (ground arith) (announce-IsValid b p v)

dispatch-IsValid :
    (e : Expect) (b : ℕ) (p : Parser)
    → p.expect ≡ e
    → p.tok ≡ idle
    → IsValid 1 p
    → Keeps (dispatch e b p)
unfolding dispatch fail
dispatch-IsValid Expect.value b p e t v = begin_value-IsValid b p e t v
dispatch-IsValid key_or_end b p e t v = grind (arith, close_container-IsValid)
dispatch-IsValid comma_or_end b p e t v = grind (arith, close_container-IsValid)
dispatch-IsValid _ b p e t v = ground arith

step_string-IsValid :
    (s : StrState) (decoded : Bytes) (is_key : Bool) (pending b : ℕ) (p : Parser)
    → p.tok ≡ str decoded s is_key pending
    → IsValid 0 p
    → Keeps (step_string s decoded is_key pending b p)
unfolding step_string close_string end_unicode end_surrogate fail
step_string-IsValid raw decoded true pending b p t v = ground arith
step_string-IsValid raw decoded false pending b p t v = grind (arith, attach-IsValid)
step_string-IsValid backslash decoded is_key pending b p t v = ground arith
step_string-IsValid (unicode n acc) decoded is_key pending b p t v = ground arith
step_string-IsValid (surrogate_hex hi n acc) decoded is_key pending b p t v = ground arith
step_string-IsValid _ decoded is_key pending b p t v = ground arith

step_structural-IsValid :
    (b : ℕ) (p : Parser) → p.tok ≡ idle → IsValid 1 p → Keeps (step_structural b p)
unfolding step_structural
step_structural-IsValid b p t v = grind (arith, dispatch-IsValid)

recommit-IsValid : (p : Parser) → IsValid 1 p → IsValid 1 (record p { commit = p.offset })
recommit-IsValid p v = ground arith

pub close_number-IsValid :
    (text : Bytes) (s : NumState) (p : Parser)
    → p.tok ≡ num text s
    → IsValid 0 p
    → IsValid 1 (close_number text p)
unfolding close_number
close_number-IsValid text s p t v =
    recommit-IsValid _
      (attach-IsValid (number (record { text = text })) (record p { tok = idle }) (ground arith))

pub tok-close_number : (text : Bytes) (p : Parser) → (close_number text p).tok ≡ idle
unfolding close_number attach attach_to
tok-close_number text p = ground arith

step_literal-IsValid :
    (text : Bytes) (b : ℕ) (p : Parser)
    → p.tok ≡ lit text
    → IsValid 0 p
    → Keeps (step_literal text b p)
unfolding step_literal fail
step_literal-IsValid text b p t v = grind (arith, attach-IsValid)

pub step_tok-IsValid :
    (t : Tok) (b : ℕ) (p : Parser) → p.tok ≡ t → IsValid 0 p → Keeps (step_tok t b p)
unfolding step_tok step_number fail
step_tok-IsValid (str decoded state is_key pending) b p t v =
    step_string-IsValid state decoded is_key pending b p t v
step_tok-IsValid (num text state) b p t v =
    grind (arith, close_number-IsValid, tok-close_number, step_structural-IsValid)
step_tok-IsValid (lit text) b p t v = step_literal-IsValid text b p t v
step_tok-IsValid idle b p t v = step_structural-IsValid b p t (ground arith)

pub advance-IsValid : (p : Parser) → IsValid 1 p → IsValid 0 (advance p)
unfolding advance closable_in
advance-IsValid p v = ground arith

pub emit_progress-IsValid : (t : Tok) (p : Parser) → IsValid 0 p → IsValid 0 (emit_progress_of t p)
unfolding emit_progress_of
emit_progress-IsValid t p v = ground arith

count-IsValid : (p : Parser) → p.tok ≡ idle → IsValid 1 p → IsValid 0 p
count-IsValid p t v = ground arith

finish_tok-IsValid :
    (t : Tok) (p : Parser) → p.tok ≡ t → IsValid 0 p → Ensures (IsValid 0) Any (finish_tok t p)
unfolding fail
finish_tok-IsValid (num text state) p t v = grind (
  arith,
  close_number-IsValid text state p t v,
  tok-close_number text p,
  count-IsValid (close_number text p),
)
finish_tok-IsValid _ p t v = ground arith

-- The end of the input keeps the state well-formed.
pub finish-IsValid :
    (p : Parser) → p.failed ≡ none → IsValid 0 p → Ensures (IsValid 0) Any (finish p)
unfolding finish fail
finish-IsValid p h v = rw (ap (λ o. finish_from o p) h) (finish_tok-IsValid p.tok p refl v)
