-- ===== src/Parser/Stable/Refused.antt =====
-- What a refused chunk leaves of a path that is reported complete.
use jawohl.Prelude.{
  ℕ, Bool, ◌≡◌, refl, sym, ◌∙◌, if◌then◌else◌, List, [], Option, none, some, arith, Bytes,
}
use jawohl.Error.{ParseErrorKind, ParseError, mismatched_close}
use jawohl.Value.{Value, complete, incomplete}
use jawohl.Parser.State.{
  Expect, Frame, StrState, raw, backslash, unicode, surrogate_hex, Tok, idle, str, num, lit, Parser,
  Outcome, err, fail, push_frame,
}
use jawohl.Parser.Structure.{
  Arm, close_bracket, close_container, close_frame, announce, open_value, begin_value, dispatch,
  step_structural,
}
use jawohl.Parser.Strings.{step_string, close_string, end_unicode, end_surrogate}
use jawohl.Parser.Numbers.{step_number, close_number}
use jawohl.Parser.Literals.{step_literal}
use jawohl.Parser.Feed.{step_tok, step, feed}
use jawohl.Parser.Snapshot.{snapshot, token_value}
use jawohl.Parser.Ensures.{Ensures, Ensures-both, feed_bytes-Ensures, feed-Ensures}
use jawohl.Parser.Valid.{IsValid}
use jawohl.Parser.Valid.Steps.{Any, step_tok-IsValid, advance-IsValid, tok-close_number}
use jawohl.Parser.Reach.{Reach, Reach-IsValid}
use jawohl.Stream.Status.{descend_from, status_at, is_open_container}
use jawohl.Parser.Stable.{Frozen, at_root, descend-Frozen}
use jawohl.Parser.Stable.Steps.{Settled, Refused, unrooted, feed-Settled}
use jawohl.Parser.Stable.Complete.{complete-Settled}
use jawohl.Parser.Stable.Walk.{AllCanonical}
use jawohl.Parser.Stable.Later.{After, Reach-After, Settled-After, status-found}

-- A root has no token after it.
abbrev NoToken : Option Value → Tok → Type 0
NoToken none t = Unit
NoToken (some v) t = token_value t ≡ none

abbrev Calm : Parser → Type 0
Calm p = NoToken p.root p.tok

-- What is refused leaves the parser calm.
abbrev Calms : {A : Type 0} → Outcome A → Type 0
Calms o = Ensures (λ q. Unit) (λ e. Calm) o

NoToken-idle : (r : Option Value) → NoToken r idle
unfolding token_value
NoToken-idle none = tt
NoToken-idle (some v) = refl

NoToken-rootless : (r : Option Value) (t : Tok) → r ≡ none → NoToken r t
NoToken-rootless none t e = tt
NoToken-rootless (some v) t e = cc

close_container-Calms : (b : ℕ) (p : Parser) → Calm p → Calms (close_container b p)
unfolding close_container close_frame fail
close_container-Calms b p h = ground arith

announce-Calm : (b : ℕ) (p : Parser) → Calm p → Calm (announce b p)
unfolding announce
announce-Calm b p h = ground arith

open_value-Calms : (a : Arm) (b : ℕ) (p : Parser) → Calm p → Calms (open_value a b p)
unfolding open_value push_frame fail
open_value-Calms close_bracket b p h = grind (arith, close_container-Calms)
open_value-Calms _ b p h = ground arith

begin_value-Calms : (b : ℕ) (p : Parser) → Calm p → Calms (begin_value b p)
unfolding begin_value
begin_value-Calms b p h = open_value-Calms _ b _ (announce-Calm b p h)

dispatch-Calms : (e : Expect) (b : ℕ) (p : Parser) → Calm p → Calms (dispatch e b p)
unfolding dispatch fail
dispatch-Calms Expect.value b p h = begin_value-Calms b p h
dispatch-Calms _ b p h = grind (arith, close_container-Calms)

step_structural-Calms : (b : ℕ) (p : Parser) → Calm p → Calms (step_structural b p)
unfolding step_structural
step_structural-Calms b p h = grind (arith, dispatch-Calms)

step_string-Calms :
    (s : StrState) (decoded : Bytes) (is_key : Bool) (pending b : ℕ) (p : Parser)
    → p.root ≡ none
    → Calms (step_string s decoded is_key pending b p)
unfolding step_string close_string end_unicode end_surrogate fail
step_string-Calms raw decoded is_key pending b p h = ground arith
step_string-Calms backslash decoded is_key pending b p h = ground arith
step_string-Calms (unicode m acc) decoded is_key pending b p h = ground arith
step_string-Calms (surrogate_hex hi m acc) decoded is_key pending b p h = ground arith
step_string-Calms _ decoded is_key pending b p h = ground arith

step_literal-Calms : (text : Bytes) (b : ℕ) (p : Parser) → Calm p → Calms (step_literal text b p)
unfolding step_literal fail
step_literal-Calms text b p h = ground arith

close_number-Calm : (text : Bytes) (p : Parser) → Calm (close_number text p)
close_number-Calm text p = rw (tok-close_number text p) (NoToken-idle (close_number text p).root)

step_tok-Calms : (t : Tok) (b : ℕ) (p : Parser) → p.tok ≡ t → IsValid 0 p → Calms (step_tok t b p)
unfolding step_tok step_number fail
step_tok-Calms (str decoded state is_key pending) b p t v =
    step_string-Calms state decoded is_key pending b p (unrooted p v (ground arith))
step_tok-Calms (num text state) b p t v =
    let calm : Calm p = NoToken-rootless p.root p.tok (unrooted p v (ground arith)) in
    grind (arith, step_structural-Calms b (close_number text p) (close_number-Calm text p))
step_tok-Calms (lit text) b p t v =
    step_literal-Calms text b p (NoToken-rootless p.root p.tok (unrooted p v (ground arith)))
step_tok-Calms idle b p t v = step_structural-Calms b p (rw t (NoToken-idle p.root))

feed-Calms : (bytes : Bytes) (p : Parser) → p.failed ≡ none → IsValid 0 p → Calms (feed bytes p)
feed-Calms bytes p fresh v =
    feed-Ensures (IsValid 0) (λ q. Unit) (λ e. Calm) (λ q i. tt) bytes p fresh
      (feed_bytes-Ensures (IsValid 0) (λ q. IsValid 1 q × Unit) (λ e. Calm)
        (λ b q i.
          Ensures-both (IsValid 1) (λ r. Unit) Any (λ e. Calm) (step b q)
            (step_tok-IsValid q.tok b q refl i) (step_tok-Calms q.tok b q refl i))
        (λ q j. advance-IsValid q j.0) bytes p v)

-- An error that is not about a closing bracket that does not match the open one.
abbrev pub IsOther : ParseErrorKind → Type 0
IsOther (mismatched_close b o) = ⊥
IsOther _ = Unit

kept :
    (tokens : List Bytes) (v : Value) (e : ParseError) (r : Parser) (k : ParseErrorKind)
    → e.kind ≡ k
    → IsOther k
    → Refused tokens v e r
    → Settled tokens v r
kept tokens v e r (mismatched_close b o) same other h = absurd other
kept tokens v e r k same other h = rw same at h

Frozen-calm :
    {tokens : List Bytes} {v : Value} {stack : List Frame} {root : Option Value} (t : Tok)
    → Frozen tokens v stack root
    → NoToken root t
    → stack ≡ []
    → token_value t ≡ none
Frozen-calm t (at_root d) h s = h
Frozen-calm t _ h s = cc

snapshot-kept :
    (tokens : List Bytes) (v : Value) (r : Parser)
    → Settled tokens v r
    → Calm r
    → descend_from tokens (snapshot r) ≡ some v
unfolding snapshot
snapshot-kept tokens v r s h = descend-Frozen s (token_value r.tok) (Frozen-calm r.tok s h)

-- A path that a reachable state reports complete keeps its value after a chunk that is refused, too,
-- where the error is not a closing bracket that does not match the open one; it stays reported
-- complete, unless it names the path of a container in flight. The chunk may follow any number of
-- accepted ones, changes of the settings and drains of the log. An index among the tokens of the path
-- is spelled as it is printed.
pub complete-stays_refused :
    (tokens : List Bytes) {p q r : Parser} (bytes : Bytes) (e : ParseError)
    → Reach p
    → AllCanonical tokens
    → status_at tokens p ≡ complete
    → After p q
    → feed bytes q ≡ err e r
    → IsOther e.kind
    → (descend_from tokens (snapshot r) ≡ descend_from tokens (snapshot p))
      × (status_at tokens r ≡ (if is_open_container tokens r then incomplete else complete))
complete-stays_refused tokens {p} {q} {r} bytes e reach canonical whole after failing other =
    let (v, found, final, s) = complete-Settled tokens p canonical whole in
    let (fresh, valid) = Reach-IsValid (Reach-After reach after) in
    let refused : Refused tokens v e r =
      rw failing at
        (feed-Settled tokens v bytes q fresh valid (Settled-After tokens v reach s after)) in
    let calm : Calm r = rw failing at (feed-Calms bytes q fresh valid) in
    let same : descend_from tokens (snapshot r) ≡ some v =
      snapshot-kept tokens v r (kept tokens v e r e.kind refl other refused) calm in
    (same ∙ sym found, status-found tokens v r same final)
