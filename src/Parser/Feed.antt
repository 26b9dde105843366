-- ===== src/Parser/Feed.antt =====
-- src/parser.rs: one byte, a chunk, and the end of the input.
use jawohl.Prelude.{
  ℕ, ◌+◌, Bool, true, false, not, [], ◌∷◌, Option, none, some, ltb, if◌then◌else◌, length, Bytes,
}
use jawohl.Error.{ParseError, malformed_number, bad_literal}
use jawohl.Event.{value_progressed}
use jawohl.Utf8.{valid_prefix}
use jawohl.Parser.State.{
  Expect, key_or_end, key, colon, comma_or_end, done, terminable, Tok, idle, str, num, lit, Parser,
  Outcome, ok, err, ◌>>=◌, fail, slot_pointer, push_event,
}
use jawohl.Parser.Structure.{in_empty_array, step_structural}
use jawohl.Parser.Strings.{step_string}
use jawohl.Parser.Numbers.{step_number, close_number}
use jawohl.Parser.Literals.{is_keyword, step_literal}

-- A delimiter falls through to the structure.
unfoldable pub step_tok : Tok → ℕ → Parser → Outcome Unit
step_tok (str decoded state is_key pending) b p = step_string state decoded is_key pending b p
step_tok (num text state) b p =
    step_number text state b p >>= λ consumed q. if consumed then ok tt q else step_structural b q
step_tok (lit text) b p = step_literal text b p
step_tok idle b p = step_structural b p

abbrev pub step : ℕ → Parser → Outcome Unit
step b p = step_tok p.tok b p

-- Is the structure closable by appending brackets alone?
unfoldable pub closable_in : Expect → Parser → Bool
closable_in done p = true
closable_in comma_or_end p = true
closable_in key_or_end p = true
closable_in Expect.value p = in_empty_array p.stack
closable_in key p = false
closable_in colon p = false

abbrev pub closable : Parser → Bool
closable p = closable_in p.expect p

-- `self.offset += 1`, and the commit point.
abbrev pub commit_tok : Tok → Parser → Parser
commit_tok idle p = if closable p then record p { commit = p.offset } else p
commit_tok _ p = p

unfoldable pub advance : Parser → Parser
advance p = commit_tok p.tok (record p { offset = p.offset + 1 })

-- The stable prefix of a text: its longest well-formed part.
abbrev pub stable_prefix : Bytes → Bytes
stable_prefix = valid_prefix

-- Report an open string's growth.
unfoldable pub emit_progress_of : Tok → Parser → Parser
emit_progress_of (str decoded state false pending) p =
    let prefix = stable_prefix decoded in
    if ltb p.reported_prefix (length prefix)
    then push_event (value_progressed (slot_pointer p) prefix)
        (record p { reported_prefix = length prefix })
    else p
emit_progress_of _ p = record p { reported_prefix = 0 }

abbrev pub emit_progress : Parser → Parser
emit_progress p = emit_progress_of p.tok p

-- The loop over the bytes of a chunk; the first failure ends it.
unfoldable pub feed_bytes : Bytes → Parser → Outcome Unit
feed_bytes [] p = ok tt p
feed_bytes (b ∷ bs) p = step b p >>= λ _ q. feed_bytes bs (advance q)

abbrev pub feed_from : Option ParseError → Bytes → Parser → Outcome Unit
feed_from (some e) bytes p = err e p
feed_from none bytes p = feed_bytes bytes p >>= λ _ q. ok tt (emit_progress q)

unfoldable pub feed : Bytes → Parser → Outcome Unit
feed bytes p = feed_from p.failed bytes p

abbrev pub finish_tok : Tok → Parser → Outcome Unit
finish_tok (num text state) p =
    if not (terminable state) then fail malformed_number p else ok tt (close_number text p)
finish_tok (lit text) p = if not (is_keyword text) then fail bad_literal p else ok tt p
finish_tok _ p = ok tt p

abbrev pub finish_from : Option ParseError → Parser → Outcome Unit
finish_from (some e) p = err e p
finish_from none p = finish_tok p.tok p

unfoldable pub finish : Parser → Outcome Unit
finish p = finish_from p.failed p
