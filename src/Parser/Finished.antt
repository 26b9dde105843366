-- ===== src/Parser/Finished.antt =====
-- What a finished value is, and the invariant on the values that src/parser.rs holds and logs.
pub mod Steps
pub mod Reached
use jawohl.Prelude.{ℕ, ◌≡◌, Bool, true, false, List, [], ◌∷◌, ◌++◌, Option, none, some, Bytes}
use jawohl.Utf8.{well_formed}
use jawohl.Event.{Event, value_completed}
use jawohl.Value.{
  Value, Values, Members, null, bool, number, string, array, object, partial_string, partial_number,
  partial_literal, nil, cons, end, member, push_item, push_member,
}
use jawohl.Parser.State.{Frame, Tok, idle, str, num, lit, Parser}
use jawohl.Parser.Grammar.{IsJsonNumber, num_scan}

unfoldable mutual
  pub Finished : Value → Type 0
  Finished null = Unit
  Finished (bool b) = Unit
  Finished (number n) = IsJsonNumber n.text
  Finished (string s) = well_formed s ≡ true
  Finished (array items) = FinishedItems items
  Finished (object members) = FinishedMembers members
  Finished (partial_string s) = ⊥
  Finished (partial_number t) = ⊥
  Finished (partial_literal t) = ⊥

  pub FinishedItems : Values → Type 0
  FinishedItems nil = Unit
  FinishedItems (cons v vs) = Finished v × FinishedItems vs

  pub FinishedMembers : Members → Type 0
  FinishedMembers end = Unit
  FinishedMembers (member k v ms) = (well_formed k ≡ true) × Finished v × FinishedMembers ms

abbrev pub FinishedKey : Option Bytes → Type 0
FinishedKey none = Unit
FinishedKey (some k) = well_formed k ≡ true

abbrev pub FinishedStack : List Frame → Type 0
FinishedStack [] = Unit
FinishedStack (Frame.object members pending_key n ∷ below) =
    FinishedMembers members × FinishedKey pending_key × FinishedStack below
FinishedStack (Frame.array items n ∷ below) = FinishedItems items × FinishedStack below

abbrev pub FinishedRoot : Option Value → Type 0
FinishedRoot none = Unit
FinishedRoot (some v) = Finished v

abbrev pub FinishedEvent : Event → Type 0
FinishedEvent (value_completed path v) = Finished v
FinishedEvent _ = Unit

abbrev pub FinishedEvents : List Event → Type 0
FinishedEvents [] = Unit
FinishedEvents (e ∷ es) = FinishedEvent e × FinishedEvents es

-- The state of a number is the one that its text leads to.
abbrev pub Scanned : Tok → Type 0
Scanned (num text state) = num_scan text ≡ some state
Scanned _ = Unit

pub record HoldsFinished (p : Parser) : Type 0 where
  pub frames : FinishedStack p.stack
  pub roots : FinishedRoot p.root
  pub log : FinishedEvents p.events
  pub scanned : Scanned p.tok

pub FinishedItems-push :
    (vs : Values) (v : Value) → FinishedItems vs → Finished v → FinishedItems (push_item vs v)
unfolding FinishedItems push_item
FinishedItems-push nil v h f = (f, tt)
FinishedItems-push (cons x vs) v h f = (h.0, FinishedItems-push vs v h.1 f)

pub FinishedMembers-push :
    (ms : Members) (k : Bytes) (v : Value)
    → FinishedMembers ms
    → well_formed k ≡ true
    → Finished v
    → FinishedMembers (push_member ms k v)
unfolding FinishedMembers push_member
FinishedMembers-push end k v h w f = (w, f, tt)
FinishedMembers-push (member j x ms) k v h w f = (h.0, h.1, FinishedMembers-push ms k v h.2 w f)

pub FinishedEvents-push :
    (es : List Event) (e : Event)
    → FinishedEvents es
    → FinishedEvent e
    → FinishedEvents (es ++ e ∷ [])
FinishedEvents-push [] e h f = (f, tt)
FinishedEvents-push (x ∷ es) e h f = (h.0, FinishedEvents-push es e h.1 f)
