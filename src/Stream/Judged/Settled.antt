-- ===== src/Stream/Judged/Settled.antt =====
-- A stream with a schema over several calls, and its verdicts at paths that are complete.
use mathlib.Core.Path.{subst}
use jawohl.Prelude.{
  ℕ, List, [], ◌∷◌, ◌++◌, append_assoc, append-nil, Option, none, some, false, ◌≡◌, refl, sym, ap,
  ◌∙◌, if◌then◌else◌, Bytes,
}
use jawohl.Event.{Event, IsVerdict, validation_failed, validation_completed}
use jawohl.Pointer.{parse_pointer}
use jawohl.Value.{complete, incomplete}
use jawohl.Parser.State.{Parser, Outcome}
use jawohl.Parser.Feed.{finish}
use jawohl.Parser.Snapshot.{snapshot}
use jawohl.Parser.Reach.{Reach}
use jawohl.Parser.Stable.Walk.{AllCanonical}
use jawohl.Parser.Stable.Later.{After, complete-stays}
use jawohl.Schema.Pattern.{Dfa}
use jawohl.Stream.Status.{status, status_at, is_open_container, descend_from}
use jawohl.Stream.Judged.{
  Stream, Pushed, with_parser, returned, changes, finish_stream, validation_of, validation, push,
}
use jawohl.Stream.Judged.Log.{with_events}
use jawohl.Stream.Judged.Told.{Tells, AllTell}
use jawohl.Stream.Judged.Pushes.{push_refines}
use jawohl.Validate.Numbers.{Floats}
use jawohl.Validate.Nodes.{Validator}

abbrev AllVerdicts : List Event → Type 0
AllVerdicts [] = Unit
AllVerdicts (e ∷ es) = IsVerdict e × AllVerdicts es

After-told :
    (es : List Event) {p q : Parser}
    → AllVerdicts es
    → After p q
    → After p (with_events (q.events ++ es) q)
After-told [] {p} {q} v a = subst (λ es. After p (with_events es q)) (sym (append-nil q.events)) a
After-told (e ∷ es) {p} {q} v a =
    subst (λ ds. After p (with_events ds q)) (append_assoc q.events (e ∷ []) es)
      (After-told es v.1 (After.told e v.0 a))

module _ {F D S : Type 0} (floats : Floats F) (ops : Dfa D S) (fuel : ℕ) where
  Tells-IsVerdict : (s : Stream F D) (e : Event) → Tells floats ops fuel s e → IsVerdict e
  Tells-IsVerdict s (validation_failed p v) t = tt
  Tells-IsVerdict s (validation_completed p v) t = tt
  Tells-IsVerdict s _ t = absurd t

  AllTell-AllVerdicts :
      (s : Stream F D) (es : List Event) → AllTell floats ops fuel s es → AllVerdicts es
  AllTell-AllVerdicts s [] t = tt
  AllTell-AllVerdicts s (e ∷ es) t = (Tells-IsVerdict s e t.0, AllTell-AllVerdicts s es t.1)

  -- `t` comes after `s`: chunks are accepted, the log is drained, and the input ends.
  pub data Onward (s : Stream F D) : Stream F D → Type 0 where
    now : Onward s s
    pushed :
        {t u : Stream F D} (chunk : Bytes)
        → Onward s t
        → push floats ops fuel chunk t ≡ Pushed.ok u
        → Onward s u
    drained : {t : Stream F D} → Onward s t → Onward s (changes t).1
    finished : {t u : Stream F D} → Onward s t → finish_stream t ≡ Pushed.ok u → Onward s u

  pub returned-ok :
      (o : Outcome Unit) (t u : Stream F D)
      → returned o t ≡ Pushed.ok u
      → (p : Parser) × ((o ≡ Outcome.ok tt p) × (u ≡ with_parser p t))
  returned-ok (Outcome.ok a p) t u e = (p, (refl, cc))
  returned-ok (Outcome.err x p) t u e = cc
  returned-ok Outcome.panic t u e = cc

  -- The schema stays, and the parser goes on.
  Onward-After :
      {s t : Stream F D} → Onward s t → (t.validator ≡ s.validator) × After s.parser t.parser
  unfolding changes finish_stream
  Onward-After now = (refl, After.now)
  Onward-After {s} (pushed {t} {u} chunk o e) =
      let (same, a) = Onward-After o in
      let (p, (fed, (log, (parser, (validator, tell))))) =
        push_refines floats ops fuel chunk t u e in
      (
        validator ∙ same,
        subst (λ q. After s.parser q) (sym parser)
            (After-told log (AllTell-AllVerdicts (with_parser p t) log tell)
              (After.pushed chunk a fed)),
      )
  Onward-After (drained o) = let (same, a) = Onward-After o in (same, After.drained a)
  Onward-After {s} (finished {t} {u} o e) =
      let (same, a) = Onward-After o in
      let (p, (ended, is)) = returned-ok (finish t.parser) t u e in
      (
        ap (λ x. x.validator) is ∙ same,
        subst (λ x. After s.parser x.parser) (sym is) (After.finished a ended),
      )

  status_for-at :
      (q : Bytes) (tokens : List Bytes) (p : Parser)
      → parse_pointer q ≡ some tokens
      → status q p ≡ status_at tokens p
  unfolding status
  status_for-at q tokens p e = rw e refl

  judge_pointer-settled :
      (v : Option (Validator F D)) (q : Bytes) (tokens : List Bytes) (p r : Parser)
      → parse_pointer q ≡ some tokens
      → descend_from tokens (snapshot r) ≡ descend_from tokens (snapshot p)
      → status q r ≡ status q p
      → validation_of floats ops fuel v q r ≡ validation_of floats ops fuel v q p
  judge_pointer-settled none q tokens p r e found same = refl
  judge_pointer-settled (some v) q tokens p r e found same = rw (e, found, same) refl

  -- A settled verdict is final: where a stream reports a path complete, it answers the same verdict at
  -- that path after every later chunk that it accepts, drain of the log and end of the input, unless
  -- the path names a container in flight by then. An index among the tokens of the path is spelled as
  -- it is printed.
  pub verdict_stays :
      (q : Bytes) (tokens : List Bytes) {s t : Stream F D}
      → Reach s.parser
      → parse_pointer q ≡ some tokens
      → AllCanonical tokens
      → status q s.parser ≡ complete
      → Onward s t
      → is_open_container tokens t.parser ≡ false
      → validation floats ops fuel q t ≡ validation floats ops fuel q s
  unfolding validation
  verdict_stays q tokens {s} {t} r e canonical whole onward closed =
      let (same, a) = Onward-After onward in
      let here = status_for-at q tokens s.parser e in
      let (found, status_later) = complete-stays tokens r canonical (sym here ∙ whole) a in
      let still : status q t.parser ≡ complete =
        status_for-at q tokens t.parser e
        ∙ (status_later ∙ ap (λ b. if b then incomplete else complete) closed) in
      ap (λ v. validation_of floats ops fuel v q t.parser) same
      ∙ judge_pointer-settled s.validator q tokens s.parser t.parser e found (still ∙ sym whole)
