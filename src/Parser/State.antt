-- ===== src/Parser/State.antt =====
-- src/parser.rs: the machine's state, its paths, and how its operations return.
use jawohl.Prelude.{
  ℕ, Bool, true, false, List, [], ◌∷◌, ◌++◌, Option, none, some, leb, if◌then◌else◌, length, Bytes,
}
use jawohl.Error.{ParseErrorKind, depth_limit_exceeded, ParseError}
use jawohl.Event.{Event}
use jawohl.Pointer.{escape_token, decimal}
use jawohl.Value.{Value, Values, Members, items_len}

pub data Expect : Type 0 where
  value key_or_end key colon comma_or_end done : Expect

-- The last field is the length of `path_prefix` before the frame was pushed.
pub data Frame : Type 0 where
  object : Members → Option Bytes → ℕ → Frame
  array : Values → ℕ → Frame

pub data StrState : Type 0 where
  raw : StrState
  backslash : StrState
  unicode : ℕ → ℕ → StrState
  surrogate_backslash : ℕ → StrState
  surrogate_u : ℕ → StrState
  surrogate_hex : ℕ → ℕ → ℕ → StrState

pub data NumState : Type 0 where
  after_sign zero_digit int dot frac exp exp_sign exp_digits : NumState

-- Would the number be well-formed, if it ended now?
unfoldable pub terminable : NumState → Bool
terminable zero_digit = true
terminable int = true
terminable frac = true
terminable exp_digits = true
terminable _ = false

-- `str decoded state is_key pending`, `num text state`, `lit text`
pub data Tok : Type 0 where
  idle : Tok
  str : Bytes → StrState → Bool → ℕ → Tok
  num : Bytes → NumState → Tok
  lit : Bytes → Tok

-- The innermost frame is the first of `stack`.
pub record Parser : Type 0 where
  pub stack : List Frame
  pub expect : Expect
  pub tok : Tok
  pub root : Option Value
  pub failed : Option ParseError
  pub offset : ℕ
  pub events : List Event
  pub path_prefix : Bytes
  pub enforce_plain_decimal : Bool
  pub max_depth : ℕ
  pub reported_prefix : ℕ
  pub commit : ℕ

abbrev pub default_max_depth : ℕ
default_max_depth = 1024

abbrev pub new : Parser
new = record {
  stack = [];
  expect = Expect.value;
  tok = idle;
  root = none;
  failed = none;
  offset = 0;
  events = [];
  path_prefix = [];
  enforce_plain_decimal = false;
  max_depth = default_max_depth;
  reported_prefix = 0;
  commit = 0;
}

-- An operation on `&mut self` returns, fails, or panics; the state comes back beside an error too.
pub data Outcome (A : Type 0) : Type 0 where
  ok : A → Parser → Outcome A
  err : ParseError → Parser → Outcome A
  panic : Outcome A

-- The operator `?`, and a sequence.
infixl 5 ◌>>=◌
abbrev pub ◌>>=◌ : {A B : Type 0} → Outcome A → (A → Parser → Outcome B) → Outcome B
ok a p >>= f = f a p
err e p >>= f = err e p
panic >>= f = panic

-- A failure is recorded once, and returned.
abbrev pub latch : Option ParseError → ParseError → Option ParseError
latch none e = some e
latch (some first) e = some first

abbrev pub error_at : ParseErrorKind → Parser → ParseError
error_at kind p = record { offset = p.offset; kind = kind }

unfoldable pub fail : {A : Type 0} → ParseErrorKind → Parser → Outcome A
fail kind p = err (error_at kind p) (record p { failed = latch p.failed (error_at kind p) })

abbrev pub or_default : Option Bytes → Bytes
or_default none = []
or_default (some k) = k

unfoldable pub slot_token : Frame → Bytes
slot_token (object members pending_key path_len) = escape_token (or_default pending_key)
slot_token (array items path_len) = decimal (items_len items)

unfoldable pub path_len : Frame → ℕ
path_len (object _ _ n) = n
path_len (array _ n) = n

-- What the innermost frame adds to a path: `/` and its slot.
abbrev pub slot_suffix : List Frame → Bytes
slot_suffix [] = []
slot_suffix (top ∷ below) = b'/' ∷ slot_token top

unfoldable pub slot_pointer : Parser → Bytes
slot_pointer p = p.path_prefix ++ slot_suffix p.stack

-- `self.events.push(e)`
abbrev pub push_event : Event → Parser → Parser
push_event e p = record p { events = p.events ++ e ∷ [] }

-- `peek_events`, `drain_events`
abbrev pub peek_events : Parser → List Event
peek_events p = p.events

unfoldable pub drain_events : Parser → List Event × Parser
drain_events p = (p.events, record p { events = [] })

unfoldable pub push_frame : (ℕ → Frame) → Parser → Outcome Unit
push_frame make p =
    if leb p.max_depth (length p.stack)
    then fail (depth_limit_exceeded p.max_depth) p
    else ok tt (record p {
      path_prefix = p.path_prefix ++ slot_suffix p.stack;
      stack = make (length p.path_prefix) ∷ p.stack;
    })

unfoldable pub set_enforce_plain_decimal : Bool → Parser → Parser
set_enforce_plain_decimal on p = record p { enforce_plain_decimal = on }

unfoldable pub set_max_depth : ℕ → Parser → Parser
set_max_depth depth p = record p { max_depth = depth }

abbrev pub is_idle : Tok → Bool
is_idle idle = true
is_idle _ = false

abbrev pub is_done : Expect → Bool
is_done done = true
is_done _ = false

unfoldable pub document_complete : Parser → Bool
document_complete p = if is_done p.expect then is_idle p.tok else false
