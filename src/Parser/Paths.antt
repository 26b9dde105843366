-- ===== src/Parser/Paths.antt =====
-- The paths that the events of src/parser.rs carry.
pub mod Steps
use jawohl.Prelude.{◌≡◌, refl, sym, ap, ◌∙◌, List, [], ◌∷◌, ◌++◌, some, none, arith, Bytes}
use jawohl.Event.{
  Event, value_started, value_progressed, value_completed, validation_failed, validation_completed,
  document_completed,
}
use jawohl.Pointer.{parse_pointer, escape_token}
use jawohl.Pointer.RoundTrip.{pointer_of, pointer_of-append, parse-pointer_of}
use jawohl.Pointer.Decimal.{escape_token-decimal}
use jawohl.Value.{Value}
use jawohl.Parser.State.{
  Expect, Frame, object, array, Parser, Outcome, slot_token, slot_suffix, slot_pointer, path_len,
}
use jawohl.Parser.Snapshot.{slot_name, outer_slots}
use jawohl.Parser.Ensures.{Ensures}
use jawohl.Parser.Valid.{path_of, Fits, Remembers}

slot_token-escaped : (f : Frame) → slot_token f ≡ escape_token (slot_name f)
unfolding slot_token
slot_token-escaped (object members pending_key n) = refl
slot_token-escaped (array items n) = sym (escape_token-decimal _)

slots-path :
    (stack : List Frame) → path_of stack ++ slot_suffix stack ≡ pointer_of (outer_slots stack)
unfolding outer_slots
slots-path [] = unfold pointer_of in refl
slots-path (f ∷ below) =
    rw (
      pointer_of-append (outer_slots below) (slot_name f),
      ← slots-path below,
      slot_token-escaped f,
    )

-- The pointer of the slot at hand parses to the names of the slots of all open containers.
pub parse-slots :
    (stack : List Frame)
    → parse_pointer (path_of stack ++ slot_suffix stack) ≡ some (outer_slots stack)
parse-slots stack = ap parse_pointer (slots-path stack) ∙ parse-pointer_of (outer_slots stack)

-- The frames without the innermost.
abbrev pub outside : List Frame → List Frame
outside [] = []
outside (frame ∷ below) = below

-- The path names the slots of all frames, from the root on.
abbrev pub Spells : List Frame → Bytes → Type 0
Spells stack path = parse_pointer path ≡ some (outer_slots stack)

-- What an event of the parser says of the frames before the byte: a container that is complete stood
-- in the slot outside the innermost frame, and any other value stands in the innermost slot.
abbrev pub Names : List Frame → Event → Type 0
Names stack (value_started path kind) = Spells stack path
Names stack (value_progressed path prefix) = Spells stack path
Names stack (value_completed path (Value.object members)) = Spells (outside stack) path
Names stack (value_completed path (Value.array items)) = Spells (outside stack) path
Names stack (value_completed path v) = Spells stack path
Names stack (validation_failed path state) = ⊥
Names stack (validation_completed path state) = ⊥
Names stack document_completed = Unit

abbrev pub AllName : List Frame → List Event → Type 0
AllName stack [] = Unit
AllName stack (e ∷ es) = Names stack e × AllName stack es

pub AllName-push :
    (stack : List Frame) (es : List Event) (e : Event)
    → AllName stack es
    → Names stack e
    → AllName stack (es ++ e ∷ [])
AllName-push stack [] e h n = (n, tt)
AllName-push stack (x ∷ es) e h n = (h.0, AllName-push stack es e h.1 n)

-- The log begins with `old`, and each event after it is about a slot of `stack`.
abbrev pub Since : List Frame → List Event → List Event → Type 0
Since stack [] es = AllName stack es
Since stack (o ∷ old) [] = ⊥
Since stack (o ∷ old) (e ∷ es) = (o ≡ e) × Since stack old es

pub Since-push :
    (stack : List Frame) (old es : List Event) (e : Event)
    → Since stack old es
    → Names stack e
    → Since stack old (es ++ e ∷ [])
Since-push stack [] es e h n = AllName-push stack es e h n
Since-push stack (o ∷ old) (x ∷ es) e h n = (h.0, Since-push stack old es e h.1 n)
Since-push stack (o ∷ old) [] e h n = absurd h

pub Since-self : (stack : List Frame) (old : List Event) → Since stack old old
Since-self stack [] = tt
Since-self stack (o ∷ old) = (refl, Since-self stack old)

abbrev pub Named : List Frame → List Event → Parser → Type 0
Named stack old p = Since stack old p.events

abbrev pub Tells : {A : Type 0} → List Frame → List Event → Outcome A → Type 0
Tells stack old o = Ensures (Named stack old) (λ e. Named stack old) o

-- The path prefix is in step with the frames.
abbrev pub InStep : Parser → Type 0
InStep p = p.path_prefix ≡ path_of p.stack

pub Spells-slot : (p : Parser) → InStep p → Spells p.stack (slot_pointer p)
unfolding slot_pointer
Spells-slot p e = ap (λ path. parse_pointer (path ++ slot_suffix p.stack)) e ∙ parse-slots p.stack

unfoldable pub Remembered : List Frame → Type 0
Remembered [] = Unit
Remembered (frame ∷ below) = Remembers frame below

pub Fits-Remembered : (e : Expect) (s : List Frame) → Fits e s → Remembered s
unfolding Remembered path_len
Fits-Remembered e [] f = tt
Fits-Remembered Expect.value (Frame.object ms k n ∷ below) f = ground arith
Fits-Remembered Expect.value (Frame.array vs n ∷ below) f = f.0
Fits-Remembered _ (Frame.object ms k n ∷ below) f = ground arith
Fits-Remembered _ (Frame.array vs n ∷ below) f = ground arith
