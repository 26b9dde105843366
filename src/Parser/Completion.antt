-- ===== src/Parser/Completion.antt =====
-- src/parser.rs: how a truncated document is turned into a whole one.
use jawohl.Prelude.{
  ℕ, ◌-◌, true, false, List, [], ◌∷◌, Bytes, codes, drop, length, starts_with, if◌then◌else◌,
}
use jawohl.Parser.State.{Frame, object, array, terminable, Tok, idle, str, num, lit, Parser}

-- Keep `keep` bytes of the input, then append `tail`, then `closers`.
pub record Completion : Type 0 where
  pub keep : ℕ
  pub tail : Bytes
  pub closers : Bytes

abbrev pub close_byte : Frame → ℕ
close_byte (object _ _ _) = b'}'
close_byte (array _ _) = b']'

-- Innermost container first.
unfoldable pub closers : List Frame → Bytes
closers [] = []
closers (frame ∷ below) = close_byte frame ∷ closers below

-- The first keyword that begins with the text.
unfoldable pub full_literal : Bytes → Bytes
unfolding starts_with
full_literal text =
    if starts_with text (codes "true")
    then codes "true"
    else if starts_with text (codes "false")
    then codes "false"
    else if starts_with text (codes "null")
    then codes "null"
    else []

abbrev plan : ℕ → Bytes → Parser → Completion
plan keep tail p = record { keep = keep; tail = tail; closers = closers p.stack }

unfoldable pub completion_of : Tok → Parser → Completion
unfolding closers full_literal terminable
completion_of (str decoded state false pending) p = plan (p.offset - pending) (b'"' ∷ []) p
completion_of (str decoded state true pending) p = plan p.commit [] p
completion_of (lit text) p = plan p.offset (drop (length text) (full_literal text)) p
completion_of (num text state) p = plan (if terminable state then p.offset else p.commit) [] p
completion_of idle p = plan p.commit [] p

abbrev pub completion : Parser → Completion
completion p = completion_of p.tok p
