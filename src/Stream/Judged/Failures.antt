-- ===== src/Stream/Judged/Failures.antt =====
-- Errors and panics of a stream with a schema.
use mathlib.Core.Path.{subst}
use jawohl.Prelude.{ℕ, none, ◌≡◌, ◌≢◌, refl, sym, ap, ◌∙◌, Option, some, Bytes}
use jawohl.Error.{ParseError}
use jawohl.Parser.State.{Parser, Outcome}
use jawohl.Parser.Feed.{feed, finish}
use jawohl.Parser.Latch.{feed-after_failure}
use jawohl.Parser.Reach.{Reach, Reach-IsValid, feed-IsValid}
use jawohl.Parser.Ensures.{Ensures}
use jawohl.Parser.Valid.{IsValid}
use jawohl.Parser.Valid.Steps.{Any}
use jawohl.Schema.Pattern.{Dfa}
use jawohl.Stream.Judged.{
  Stream, Pushed, with_parser, finish_stream, judged, judge_touched_paths, after_feed, push,
}
use jawohl.Validate.Numbers.{Floats}

module _ {F D S : Type 0} (floats : Floats F) (ops : Dfa D S) (fuel : ℕ) where
  judged-err :
      {A : Type 0} (o : Option (Stream F D)) (e : ParseError) (u : Stream F D)
      → judged floats ops fuel o ≡ Pushed.err e u
      → A
  judged-err none e u h = cc
  judged-err (some s) e u h = cc

  after_feed-err :
      (o : Outcome Unit) (s u : Stream F D) (e : ParseError)
      → after_feed floats ops fuel o s ≡ Pushed.err e u
      → (p : Parser) × ((o ≡ Outcome.err e p) × (u ≡ with_parser p s))
  after_feed-err (Outcome.ok a p) s u e h =
      judged-err (judge_touched_paths floats ops fuel (with_parser p s)) e u h
  after_feed-err (Outcome.err x p) s u e h = (p, (cc, cc))
  after_feed-err Outcome.panic s u e h = cc

  abbrev Dead : ParseError → Stream F D → Type 0
  Dead e u =
      ((later : Bytes) → push floats ops fuel later u ≡ Pushed.err e u)
      × (finish_stream u ≡ Pushed.err e u)

  Dead-with_parser :
      (e : ParseError) (p : Parser) (s : Stream F D)
      → ((later : Bytes) → feed later p ≡ Outcome.err e p) × (finish p ≡ Outcome.err e p)
      → Dead e (with_parser p s)
  unfolding push finish_stream
  Dead-with_parser e p s (fed, ended) = (λ later. rw (fed later) refl, rw ended refl)

  -- When a push fails, the verdicts of its chunk are not told; every later push and the end of the
  -- input return the same error, and change nothing in the stream.
  pub push_after_failure :
      (chunk : Bytes) (s u : Stream F D) (e : ParseError)
      → s.parser.failed ≡ none
      → push floats ops fuel chunk s ≡ Pushed.err e u
      → ((feed chunk s.parser ≡ Outcome.err e u.parser) × (u.reported ≡ s.reported))
        × (((later : Bytes) → push floats ops fuel later u ≡ Pushed.err e u)
            × (finish_stream u ≡ Pushed.err e u))
  unfolding push
  push_after_failure chunk s u e fresh h =
      let (p, (fed, is)) = after_feed-err (feed chunk s.parser) s u e h in
      let dead : Dead e u =
        subst (Dead e) (sym is)
          (Dead-with_parser e p s (feed-after_failure chunk s.parser p e fresh fed)) in
      ((fed ∙ ap (λ x. Outcome.err e x.parser) (sym is), ap (λ x. x.reported) is), dead)

  after_feed-panic :
      (o : Outcome Unit) (s : Stream F D)
      → Ensures (IsValid 0) Any o
      → after_feed floats ops fuel o s ≢ Pushed.panic
  after_feed-panic (Outcome.ok a p) s h e =
      judged-panic (judge_touched_paths floats ops fuel (with_parser p s)) e
    where
      judged-panic : (o : Option (Stream F D)) → judged floats ops fuel o ≢ Pushed.panic
      judged-panic none e = cc
      judged-panic (some t) e = cc
  after_feed-panic (Outcome.err x p) s h e = cc
  after_feed-panic Outcome.panic s h e = h

  -- A push into a stream whose parser is in a reachable state does not panic in the parser. (An index
  -- out of the arena is no verdict here, as is fuel that was spent.)
  pub push_never_panics :
      (chunk : Bytes) (s : Stream F D)
      → Reach s.parser
      → push floats ops fuel chunk s ≢ Pushed.panic
  unfolding push
  push_never_panics chunk s r =
      let (fresh, valid) = Reach-IsValid r in
      after_feed-panic (feed chunk s.parser) s (feed-IsValid chunk s.parser fresh valid)
