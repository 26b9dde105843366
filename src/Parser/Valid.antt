-- ===== src/Parser/Valid.antt =====
-- The well-formedness of the parser's state between two bytes: what it expects fits the innermost
-- frame, the path prefix spells the enclosing slots, and the counters are in range. How deep it nests
-- is a matter of Parser/Depth, since the limit may be lowered at any time.
pub mod Steps
use jawohl.Prelude.{
  ℕ, ◌+◌, ◌≤◌, ◌≡◌, Bool, true, false, List, [], ◌∷◌, ◌++◌, Option, none, some, length, Bytes,
}
use jawohl.Value.{Value, Members, end}
use jawohl.Parser.State.{
  Expect, key_or_end, key, colon, comma_or_end, done, Frame, object, array, StrState, raw,
  backslash, unicode, surrogate_backslash, surrogate_u, surrogate_hex, Tok, idle, str, num, lit,
  Parser, slot_suffix, path_len,
}

-- The path of the container that the innermost frame is.
abbrev pub path_of : List Frame → Bytes
path_of [] = []
path_of (top ∷ below) = path_of below ++ slot_suffix below

-- The frame was pushed on `below`, whose path its length remembers.
abbrev pub Remembers : Frame → List Frame → Type 0
Remembers f below = path_len f ≡ length (path_of below)

-- A slot is open in the innermost frame, and in each below it; or it is the root.
abbrev pub Filling : List Frame → Type 0
Filling [] = Unit
Filling (object members none n ∷ below) = ⊥
Filling (object members (some k) n ∷ below) = (n ≡ length (path_of below)) × Filling below
Filling (array items n ∷ below) = (n ≡ length (path_of below)) × Filling below

-- The frames fit what is expected.
abbrev pub Fits : Expect → List Frame → Type 0
Fits Expect.value stack = Filling stack
Fits done [] = Unit
Fits key_or_end (object end none n ∷ below) = (n ≡ length (path_of below)) × Filling below
Fits key (object members none n ∷ below) = (n ≡ length (path_of below)) × Filling below
Fits colon (object members (some k) n ∷ below) = (n ≡ length (path_of below)) × Filling below
Fits comma_or_end (object members none n ∷ below) = (n ≡ length (path_of below)) × Filling below
Fits comma_or_end (array items n ∷ below) = (n ≡ length (path_of below)) × Filling below
Fits _ _ = ⊥

-- A key is typed where a key is expected, and any other token is a value.
abbrev pub TokFits : Tok → Expect → Type 0
TokFits idle e = Unit
TokFits (str decoded state true pending) key_or_end = Unit
TokFits (str decoded state true pending) key = Unit
TokFits (str decoded state true pending) e = ⊥
TokFits (str decoded state false pending) e = e ≡ Expect.value
TokFits (num text state) e = e ≡ Expect.value
TokFits (lit text) e = e ≡ Expect.value

-- The bytes of the escape at hand.
abbrev pub escape_len : StrState → ℕ
escape_len raw = 0
escape_len backslash = 1
escape_len (unicode n acc) = 2 + n
escape_len (surrogate_backslash hi) = 6
escape_len (surrogate_u hi) = 7
escape_len (surrogate_hex hi n acc) = 8 + n

-- Fewer than four digits of a `\u` escape are read.
abbrev pub DigitsLeft : StrState → Type 0
DigitsLeft (unicode n acc) = n ≤ 3
DigitsLeft (surrogate_hex hi n acc) = n ≤ 3
DigitsLeft _ = Unit

-- The token counts exactly the bytes of its unresolved escape, and they have been read.
abbrev pub PendingFits : Tok → ℕ → Type 0
PendingFits (str decoded state is_key pending) read =
    (pending ≡ escape_len state) × (pending ≤ read) × DigitsLeft state
PendingFits _ read = Unit

-- The root is there exactly when nothing more is expected.
abbrev pub RootFits : Expect → Option Value → Type 0
RootFits done none = ⊥
RootFits done (some v) = Unit
RootFits e root = root ≡ none

-- `slack` is 0 between two bytes, and 1 while the byte that was dispatched is not yet counted.
pub record IsValid (slack : ℕ) (p : Parser) : Type 0 where
  pub fits : Fits p.expect p.stack
  pub path : p.path_prefix ≡ path_of p.stack
  pub token : TokFits p.tok p.expect
  pub rooted : RootFits p.expect p.root
  pub committed : p.commit ≤ p.offset
  pub pending : PendingFits p.tok (p.offset + slack)
