-- ===== src/Stream/Judged/Pushes.antt =====
-- `Stream::push` with a schema, beside a push into the parser alone.
use mathlib.Core.Path.{subst}
use mathlib.Core.Option.{some-injective}
use mathlib.Core.List.{Memᴰ}
use mathlib.Core.List.Memᴰ.{append_right}
use jawohl.Prelude.{
  ℕ, List, [], ◌++◌, Option, none, some, true, ◌≡◌, ◌≢◌, inl, inr, refl, sym, ◌∙◌, Bytes, lookup,
}
use jawohl.Event.{Validation, Event, path, validation_failed}
use jawohl.Parser.State.{Parser, Outcome}
use jawohl.Parser.Feed.{feed}
use jawohl.Schema.Pattern.{Dfa}
use jawohl.Stream.Touched.{gather, touched_paths}
use jawohl.Stream.Touched.Covers.{Covers, judged_Covers}
use jawohl.Stream.Judged.{
  Stream, Pushed, with_parser, validation, judge_touched, judge_touched_paths, judged, after_feed,
  push,
}
use jawohl.Stream.Judged.Log.{with_events}
use jawohl.Stream.Judged.Told.{
  Later, Later-refl, Current, Later-validation, judge_paths-Later, AllTell,
}
use jawohl.Validate.Verdict.{is_failure}
use jawohl.Validate.Numbers.{Floats}
use jawohl.Validate.Nodes.{Validator}

module _ {F D S : Type 0} (floats : Floats F) (ops : Dfa D S) (fuel : ℕ) where
  -- Every path of an event in the log of `s`, and every path above, has its verdict remembered.
  abbrev AllCurrent : Stream F D → Stream F D → Type 0
  AllCurrent s u =
      (v : Validator F D)
      → s.validator ≡ some v
      → (e : Event) → Memᴰ e s.parser.events
      → (p q : Bytes) → path e ≡ some p
      → Covers q p
      → Current floats ops fuel s u q

  abbrev Judges : Stream F D → Stream F D → Type 0
  Judges s u = Later floats ops fuel s u × AllCurrent s u

  none_some : {A B : Type 0} {o : Option A} {a : A} → o ≡ none → o ≡ some a → B
  none_some e h = cc

  judge_touched-Judges :
      (v : Option (Validator F D)) (s u : Stream F D)
      → s.validator ≡ v
      → judge_touched floats ops fuel v s ≡ some u
      → Judges s u
  judge_touched-Judges none s u none_here e = (
    subst (Later floats ops fuel s) (some-injective s u e) (Later-refl floats ops fuel s),
    λ v here. none_some none_here here,
  )
  judge_touched-Judges (some v) s u here e =
      let (later, current) =
        judge_paths-Later floats ops fuel s s u (gather (touched_paths s.parser.events) [])
          (Later-refl floats ops fuel s) e in
      (later, λ w h d m p q k c. current q (inl (judged_Covers d s.parser.events p q m k c)))

  abbrev Fed : Bytes → Stream F D → Stream F D → Type 0
  Fed chunk s u =
      (p : Parser) × ((feed chunk s.parser ≡ Outcome.ok tt p) × Judges (with_parser p s) u)

  judged-some :
      (o : Option (Stream F D)) (u : Stream F D)
      → judged floats ops fuel o ≡ Pushed.ok u
      → o ≡ some u
  judged-some none u e = cc
  judged-some (some s) u e = cc

  after_feed-Fed :
      (o : Outcome Unit) (s u : Stream F D)
      → after_feed floats ops fuel o s ≡ Pushed.ok u
      → (p : Parser) × ((o ≡ Outcome.ok tt p) × Judges (with_parser p s) u)
  unfolding judge_touched_paths
  after_feed-Fed (Outcome.ok a p) s u e = (
    p,
    (
      refl,
      judge_touched-Judges s.validator (with_parser p s) u refl
          (judged-some (judge_touched_paths floats ops fuel (with_parser p s)) u e),
    ),
  )
  after_feed-Fed (Outcome.err x p) s u e = cc
  after_feed-Fed Outcome.panic s u e = cc

  push-Fed :
      (chunk : Bytes) (s u : Stream F D)
      → push floats ops fuel chunk s ≡ Pushed.ok u
      → Fed chunk s u
  unfolding push
  push-Fed chunk s u e = after_feed-Fed (feed chunk s.parser) s u e

  pub push_refines :
      (chunk : Bytes) (s u : Stream F D)
      → push floats ops fuel chunk s ≡ Pushed.ok u
      → (p : Parser) × ((feed chunk s.parser ≡ Outcome.ok tt p)
          × ((log : List Event) × ((u.parser ≡ with_events (p.events ++ log) p)
                × ((u.validator ≡ s.validator) × AllTell floats ops fuel (with_parser p s) log))))
  push_refines chunk s u e =
      let (p, (fed, (later, current))) = push-Fed chunk s u e in
      (p, (fed, (later.log, (later.parser, (later.validator, later.tells)))))

  ok-injective :
      (o : Outcome Unit) (p q : Parser) → o ≡ Outcome.ok tt p → o ≡ Outcome.ok tt q → p ≡ q
  ok-injective o p q e h = cc

  same_feed :
      (chunk : Bytes) (s u : Stream F D) (p : Parser)
      → feed chunk s.parser ≡ Outcome.ok tt p
      → push floats ops fuel chunk s ≡ Pushed.ok u
      → Judges (with_parser p s) u
  same_feed chunk s u p fed e =
      let (q, (h, j)) = push-Fed chunk s u e in
      subst (λ x. Judges (with_parser x s) u) (ok-injective (feed chunk s.parser) q p h fed) j

  -- After a push of a stream with a schema, the verdict that is remembered at a path is the one that
  -- the stream answers, for every path that an event of the log names and every path above.
  pub push_remembers :
      (chunk : Bytes) (s u : Stream F D) (p : Parser) (v : Validator F D) (e : Event) (at q : Bytes)
      → s.validator ≡ some v
      → feed chunk s.parser ≡ Outcome.ok tt p
      → push floats ops fuel chunk s ≡ Pushed.ok u
      → Memᴰ e p.events
      → path e ≡ some at
      → Covers q at
      → lookup q u.reported ≡ validation floats ops fuel q u
  push_remembers chunk s u p v e at q here fed pushed m k c =
      let (later, current) = same_feed chunk s u p fed pushed in
      current v here e m at q k c
      ∙ sym (Later-validation floats ops fuel (with_parser p s) u q later)

  -- A failure is told: after a push of a stream with a schema, when the verdict at the path of an event
  -- of the log, or above, is a failure, and another verdict or none was remembered there, the log has
  -- the event of that failure.
  pub push_tells_failure :
      (chunk : Bytes) (s u : Stream F D) (p : Parser) (v : Validator F D) (e : Event) (at q : Bytes)
      (now : Validation)
      → s.validator ≡ some v
      → feed chunk s.parser ≡ Outcome.ok tt p
      → push floats ops fuel chunk s ≡ Pushed.ok u
      → Memᴰ e p.events
      → path e ≡ some at
      → Covers q at
      → validation floats ops fuel q u ≡ some now
      → is_failure now ≡ true
      → lookup q s.reported ≢ some now
      → Memᴰ (validation_failed q now) u.parser.events
  push_tells_failure chunk s u p v e at q now here fed pushed m k c verdict fails unlike =
      let (later, current) = same_feed chunk s u p fed pushed in
      let before = sym (Later-validation floats ops fuel (with_parser p s) u q later) ∙ verdict in
      let known = current v here e m at q k c ∙ before in
      elim (later.remembers q) [
        | inl first ↦ absurd (unlike (sym first ∙ known))
        | inr (last, failed) ↦
            subst (λ x. Memᴰ (validation_failed q now) x.events) (sym later.parser)
              (append_right p.events (failed now before fails))
      ]
