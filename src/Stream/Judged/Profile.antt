-- ===== src/Stream/Judged/Profile.antt =====
-- The number profile of a stream with a schema, and the setting of its parser.
use mathlib.Core.Path.{subst}
use jawohl.Prelude.{ℕ, Option, some, ◌≡◌, refl, ap, ◌∙◌, Bytes}
use jawohl.Parser.State.{Parser, set_enforce_plain_decimal, set_max_depth, drain_events}
use jawohl.Parser.Feed.{finish}
use jawohl.Parser.Latch.{NotFailed, feed-Latches, finish-Latches}
use jawohl.Parser.Settings.{feed-Leaves, finish-Leaves}
use jawohl.Schema.Pattern.{Dfa}
use jawohl.Schema.Report.{Schema}
use jawohl.Schema.Compile.Entry.{Compiled, compile}
use jawohl.Stream.Judged.{
  Stream, Pushed, is_plain, with_number_profile, with_max_depth, changes, finish_stream, stream_of,
  from_json_schema, push,
}
use jawohl.Stream.Judged.Pushes.{push_refines}
use jawohl.Stream.Judged.Settled.{returned-ok}
use jawohl.Validate.Numbers.{Floats, NumberProfile}
use jawohl.Validate.Nodes.{Validator}

module _ {F D S : Type 0} (floats : Floats F) (ops : Dfa D S) (fuel : ℕ) where
  -- A stream opened with a schema, after calls that were accepted.
  pub data Life : Stream F D → Type 0 where
    opened :
        {s : Stream F D} (document : Bytes)
        → from_json_schema floats ops fuel document ≡ Compiled.ok s
        → Life s
    profiled :
        {s : Stream F D} (profile : NumberProfile) → Life s → Life (with_number_profile profile s)
    deepened : {s : Stream F D} (depth : ℕ) → Life s → Life (with_max_depth depth s)
    pushed :
        {s t : Stream F D} (chunk : Bytes)
        → Life s
        → push floats ops fuel chunk s ≡ Pushed.ok t
        → Life t
    drained : {s : Stream F D} → Life s → Life (changes s).1
    finished : {s t : Stream F D} → Life s → finish_stream s ≡ Pushed.ok t → Life t

  -- The parser enforces plain decimals exactly when the validator's profile assumes them.
  abbrev pub Matches : Stream F D → Type 0
  Matches s =
      (v : Validator F D) × ((s.validator ≡ some v)
        × (s.parser.enforce_plain_decimal ≡ is_plain v.profile))

  abbrev IsGood : Stream F D → Type 0
  IsGood s = NotFailed s.parser × Matches s

  stream_of-IsGood :
      (c : Compiled (Schema F D)) (s : Stream F D)
      → stream_of floats ops fuel c ≡ Compiled.ok s
      → IsGood s
  unfolding set_enforce_plain_decimal
  stream_of-IsGood (Compiled.ok schema) s e =
      subst IsGood (ok_inj e)
        (refl, (record { schema = schema; profile = NumberProfile.plain_decimal }, (refl, refl)))
    where
      ok_inj : {a b : Stream F D} → Compiled.ok a ≡ Compiled.ok b → a ≡ b
      ok_inj h = cc
  stream_of-IsGood (Compiled.err x) s e = cc
  stream_of-IsGood Compiled.panic s e = cc
  stream_of-IsGood Compiled.spent s e = cc

  -- A parser step that keeps the setting keeps the match.
  carried :
      (s : Stream F D) (p : Parser) (v : Option (Validator F D))
      → NotFailed p
      → p.enforce_plain_decimal ≡ s.parser.enforce_plain_decimal
      → v ≡ s.validator
      → Matches s
      → NotFailed p
        × ((w : Validator F D) × ((v ≡ some w) × (p.enforce_plain_decimal ≡ is_plain w.profile)))
  carried s p v fresh same kept (w, (here, on)) = (fresh, (w, (kept ∙ here, same ∙ on)))

  Life-IsGood : {s : Stream F D} → Life s → IsGood s
  unfolding with_number_profile set_enforce_plain_decimal with_max_depth set_max_depth changes
      drain_events from_json_schema finish_stream
  Life-IsGood {s} (opened document e) = stream_of-IsGood (compile floats ops fuel document) s e
  Life-IsGood (profiled {s} profile l) =
      let (fresh, (v, (here, on))) = Life-IsGood l in
      rw here (fresh, (record { schema = v.schema; profile = profile }, (refl, refl)))
  Life-IsGood (deepened depth l) = Life-IsGood l
  Life-IsGood (drained l) = Life-IsGood l
  Life-IsGood (pushed {s} {t} chunk l e) =
      let (fresh, m) = Life-IsGood l in
      let (p, (fed, (log, (parser, (validator, tell))))) =
        push_refines floats ops fuel chunk s t e in
      let kept = rw fed at (feed-Leaves s.parser.enforce_plain_decimal chunk s.parser fresh refl) in
      let still = rw fed at (feed-Latches chunk s.parser fresh) in
      carried s t.parser t.validator (ap (λ q. q.failed) parser ∙ still)
        (ap (λ q. q.enforce_plain_decimal) parser ∙ kept) validator m
  Life-IsGood (finished {s} {t} l e) =
      let (fresh, m) = Life-IsGood l in
      let (p, (ended, is)) = returned-ok floats ops fuel (finish s.parser) s t e in
      let kept = rw ended at (finish-Leaves s.parser.enforce_plain_decimal s.parser fresh refl) in
      let still = rw ended at (finish-Latches s.parser fresh) in
      carried s t.parser t.validator (ap (λ x. x.parser.failed) is ∙ still)
        (ap (λ x. x.parser.enforce_plain_decimal) is ∙ kept) (ap (λ x. x.validator) is) m

  -- A stream opened with a schema keeps a schema, and its parser enforces plain decimals exactly when
  -- the validator's profile assumes them, after whatever accepted calls: chunks, drains of the log, the
  -- end of the input, and changes of the profile and of the depth at any time.
  pub Life-Matches : {s : Stream F D} → Life s → Matches s
  Life-Matches l = (Life-IsGood l).1
