-- ===== src/Stream/Judged/Told.antt =====
-- The events of verdicts, and what is remembered of them.
use mathlib.Core.Path.{subst}
use mathlib.Core.Option.{some-injective}
use mathlib.Core.List.{Memᴰ}
use mathlib.Core.List.Memᴰ.{cases_cons, head, append_left, append_right}
use jawohl.Prelude.{
  ℕ, List, [], ◌∷◌, ◌++◌, append-nil, append_assoc, Option, none, some, Bool, Bool-cases,
  Option-cases, true, false, ◌&&◌, ◌≡◌, ◌≢◌, ◌⊎◌, inl, inr, arith, refl, sym, ap, ◌∙◌, Bytes,
  bytes_eq, bytes_eq_iff, lookup, insert, lookup-insert, lookup-insert_other, if◌then◌else◌,
}
use jawohl.Event.{Validation, valid, Event, validation_failed, validation_completed}
use jawohl.Value.{Syntax, complete}
use jawohl.Parser.State.{Parser}
use jawohl.Schema.Pattern.{Dfa}
use jawohl.Stream.Status.{status}
use jawohl.Stream.Judged.{
  Stream, validation_eq, is_now, is_complete_at, validation, told, report_path, judge_paths,
}
use jawohl.Stream.Judged.Log.{
  with_events, status-with_events, validation_eq-≡, validation-with_events,
}
use jawohl.Validate.Verdict.{is_failure}
use jawohl.Validate.Numbers.{Floats}

-- The events of one transition.
abbrev verdicts : Bytes → Validation → Bool → List Event
verdicts path now whole =
    if is_failure now
    then validation_failed path now ∷ []
    else if whole && validation_eq now valid
    then validation_completed path now ∷ []
    else []

with_events-none : (p : Parser) → p ≡ with_events (p.events ++ []) p
with_events-none p = rw (append-nil p.events) refl

module _ {F D S : Type 0} (floats : Floats F) (ops : Dfa D S) (fuel : ℕ) where
  told-verdicts :
      (path : Bytes) (now : Validation) (whole : Bool) (p : Parser)
      → told floats ops fuel path now whole p ≡ with_events (p.events ++ verdicts path now whole) p
  told-verdicts path now whole p = elim (Bool-cases (is_failure now)) [
    | inl e ↦ rw e refl
    | inr e ↦ elim (Bool-cases (whole && validation_eq now valid)) [
      | inl h ↦ rw (e, h) refl
      | inr h ↦ rw (e, h) (with_events-none p)
    ]
  ]

  -- The event tells the verdict at its path, which was not the last one told.
  abbrev pub Tells : Stream F D → Event → Type 0
  Tells s (validation_failed path now) =
      (validation floats ops fuel path s ≡ some now)
      × ((is_failure now ≡ true) × (lookup path s.reported ≢ some now))
  Tells s (validation_completed path now) =
      (validation floats ops fuel path s ≡ some now)
      × ((now ≡ valid) × ((status path s.parser ≡ complete) × (lookup path s.reported ≢ some now)))
  Tells s _ = ⊥

  abbrev pub AllTell : Stream F D → List Event → Type 0
  AllTell s [] = Unit
  AllTell s (e ∷ es) = Tells s e × AllTell s es

  AllTell-append :
      (s : Stream F D) (es ds : List Event) → AllTell s es → AllTell s ds → AllTell s (es ++ ds)
  AllTell-append s [] ds h k = k
  AllTell-append s (e ∷ es) ds h k = (h.0, AllTell-append s es ds h.1 k)

  -- A verdict that is a failure is in the log.
  abbrev pub Failed : Stream F D → List Event → Bytes → Type 0
  Failed s log q =
      (now : Validation)
      → validation floats ops fuel q s ≡ some now
      → is_failure now ≡ true
      → Memᴰ (validation_failed q now) log

  -- `t` is `s` after some verdicts were told.
  pub record Later (s t : Stream F D) : Type 0 where
    pub log : List Event
    pub parser : t.parser ≡ with_events (s.parser.events ++ log) s.parser
    pub validator : t.validator ≡ s.validator
    pub tells : AllTell s log
    pub remembers :
        (q : Bytes)
        → (lookup q t.reported ≡ lookup q s.reported)
          ⊎ ((lookup q t.reported ≡ validation floats ops fuel q s) × Failed s log q)

  pub Later-refl : (s : Stream F D) → Later s s
  Later-refl s = record {
    log = [];
    parser = with_events-none s.parser;
    validator = refl;
    tells = tt;
    remembers = λ q. inl refl;
  }

  pub Later-validation :
      (s t : Stream F D) (q : Bytes)
      → Later s t
      → validation floats ops fuel q t ≡ validation floats ops fuel q s
  unfolding validation
  Later-validation s t q l =
      rw (l.parser, l.validator)
        (validation-with_events floats ops fuel s.validator q (s.parser.events ++ l.log) s.parser)

  Later-status : (s t : Stream F D) (q : Bytes) → Later s t → status q t.parser ≡ status q s.parser
  Later-status s t q l = rw l.parser (status-with_events q (s.parser.events ++ l.log) s.parser)

  is_complete_at-≡ : (x : Syntax) → is_complete_at x ≡ true → x ≡ complete
  is_complete_at-≡ x e = ground arith

  is_now_self : (o : Option Validation) (now : Validation) → o ≡ some now → is_now o now ≡ true
  unfolding validation_eq
  is_now_self o now e = rw e (ground arith)

  is_now-≡ : (o : Option Validation) (now : Validation) → is_now o now ≡ true → o ≡ some now
  is_now-≡ (some v) now e = ap (λ x. some x) (validation_eq-≡ v now e)
  is_now-≡ none now e = cc

  -- What was told last is not the verdict at hand, so it is what was told first.
  unlike_first :
      (s t : Stream F D) (path : Bytes) (now : Validation)
      → Later s t
      → validation floats ops fuel path s ≡ some now
      → is_now (lookup path t.reported) now ≡ false
      → lookup path s.reported ≢ some now
  unlike_first s t path now l e fresh same = elim (l.remembers path) [
    | inl h ↦ let again = is_now_self (lookup path t.reported) now (h ∙ same) in cc
    | inr h ↦ let again = is_now_self (lookup path t.reported) now (h.0 ∙ e) in cc
  ]

  verdicts-Tells :
      (s : Stream F D) (path : Bytes) (now : Validation) (whole : Bool)
      → validation floats ops fuel path s ≡ some now
      → (whole ≡ true → status path s.parser ≡ complete)
      → lookup path s.reported ≢ some now
      → AllTell s (verdicts path now whole)
  verdicts-Tells s path now whole e done fresh = elim (Bool-cases (is_failure now)) [
    | inl h ↦ rw h ((e, (h, fresh)), tt)
    | inr h ↦ elim (Bool-cases (whole && validation_eq now valid)) [
      | inl k ↦
          rw (h, k)
            ((e, (validation_eq-≡ now valid ground arith, (done (ground arith), fresh))), tt)
      | inr k ↦ rw (h, k) tt
    ]
  ]

  told-Failed :
      (s : Stream F D) (path : Bytes) (now : Validation) (whole : Bool) (log : List Event)
      → validation floats ops fuel path s ≡ some now
      → Failed s (log ++ verdicts path now whole) path
  told-Failed s path now whole log e v h f =
      let same : now ≡ v = some-injective now v (sym e ∙ h) in
      append_right log (
        subst (λ x. Memᴰ (validation_failed path x) (verdicts path now whole)) same
          (rw (ap is_failure same ∙ f) (head refl)))

  report_path-Later :
      (s t : Stream F D) (path : Bytes) (now : Validation)
      → Later s t
      → validation floats ops fuel path s ≡ some now
      → Later s (report_path floats ops fuel path now t)
  unfolding report_path
  report_path-Later s t path now l e = elim (Bool-cases (is_now (lookup path t.reported) now)) [
    | inl h ↦ rw h l
    | inr h ↦
        let whole = is_complete_at (status path t.parser) in
        let new = verdicts path now whole in
        rw h record {
          log = l.log ++ new;
          parser =
              told-verdicts path now whole t.parser
              ∙ (ap (λ p. with_events (p.events ++ new) p) l.parser
                  ∙ ap (λ es. with_events es s.parser) (append_assoc s.parser.events l.log new));
          validator = l.validator;
          tells = AllTell-append s l.log new l.tells (
              verdicts-Tells s path now whole e
                (λ w. sym (Later-status s t path l) ∙ is_complete_at-≡ _ w)
                (unlike_first s t path now l e h));
          remembers = λ q. elim (Bool-cases (bytes_eq path q)) [
            | inl k ↦
                let same = (bytes_eq_iff path q).0 k in
                inr (
                  subst
                      (λ x. lookup x (insert path now t.reported) ≡ validation floats ops fuel x s)
                      same (lookup-insert path now t.reported ∙ sym e),
                  subst (λ x. Failed s (l.log ++ new) x) same
                      (told-Failed s path now whole l.log e),
                )
            | inr k ↦ rw (lookup-insert_other path q now t.reported k) (elim (l.remembers q) [
              | inl first ↦ inl first
              | inr (last, failed) ↦ inr (last, λ v h f. append_left new (failed v h f))
            ])
          ];
        }
  ]

  judge_paths-more :
      (p : Bytes) (ps : List Bytes) (t : Stream F D) (now : Validation)
      → validation floats ops fuel p t ≡ some now
      → judge_paths floats ops fuel (p ∷ ps) t
        ≡ judge_paths floats ops fuel ps (report_path floats ops fuel p now t)
  unfolding judge_paths
  judge_paths-more p ps t now e = rw e refl

  judge_paths-none :
      (p : Bytes) (ps : List Bytes) (t : Stream F D)
      → validation floats ops fuel p t ≡ none
      → judge_paths floats ops fuel (p ∷ ps) t ≡ none
  unfolding judge_paths
  judge_paths-none p ps t e = rw e refl

  -- The verdict at a path is the one that is remembered.
  abbrev pub Current : Stream F D → Stream F D → Bytes → Type 0
  Current s t q = lookup q t.reported ≡ validation floats ops fuel q s

  report_path-Current :
      (s t : Stream F D) (p q : Bytes) (now : Validation)
      → validation floats ops fuel p s ≡ some now
      → Current s t q
      → Current s (report_path floats ops fuel p now t) q
  unfolding report_path
  report_path-Current s t p q now e c = elim (Bool-cases (is_now (lookup p t.reported) now)) [
    | inl h ↦ rw h c
    | inr h ↦ rw h (elim (Bool-cases (bytes_eq p q)) [
      | inl k ↦
          subst (λ x. lookup x (insert p now t.reported) ≡ validation floats ops fuel x s)
            ((bytes_eq_iff p q).0 k) (lookup-insert p now t.reported ∙ sym e)
      | inr k ↦ lookup-insert_other p q now t.reported k ∙ c
    ])
  ]

  report_path-here :
      (s t : Stream F D) (p : Bytes) (now : Validation)
      → validation floats ops fuel p s ≡ some now
      → Current s (report_path floats ops fuel p now t) p
  unfolding report_path
  report_path-here s t p now e = elim (Bool-cases (is_now (lookup p t.reported) now)) [
    | inl h ↦ rw h (is_now-≡ (lookup p t.reported) now h ∙ sym e)
    | inr h ↦ rw h (lookup-insert p now t.reported ∙ sym e)
  ]

  -- The loop tells the verdicts of its paths, and remembers them.
  pub judge_paths-Later :
      (s t u : Stream F D) (ps : List Bytes)
      → Later s t
      → judge_paths floats ops fuel ps t ≡ some u
      → Later s u × ((q : Bytes) → Memᴰ q ps ⊎ Current s t q → Current s u q)
  unfolding judge_paths
  judge_paths-Later s t u [] l e = (
    subst (Later s) (some-injective t u e) l,
    λ q m. elim m [
      | inl here ↦ elim here [ ]
      | inr c ↦ subst (λ x. Current s x q) (some-injective t u e) c
    ],
  )
  judge_paths-Later s t u (p ∷ ps) l e = elim (Option-cases (validation floats ops fuel p t)) [
    | inl stuck ↦ let impossible = sym (judge_paths-none p ps t stuck) ∙ e in cc
    | inr (now, f) ↦
        let g : validation floats ops fuel p s ≡ some now = sym (Later-validation s t p l) ∙ f in
        let (later, current) =
          judge_paths-Later s (report_path floats ops fuel p now t) u ps
            (report_path-Later s t p now l g) (sym (judge_paths-more p ps t now f) ∙ e) in
        (
          later,
          λ q m. elim m [
            | inl mem ↦ elim (cases_cons mem) [
              | inl same ↦ current q (
                  inr (
                    subst (λ x. Current s (report_path floats ops fuel p now t) x) (sym same)
                      (report_path-here s t p now g)))
              | inr deeper ↦ current q (inl deeper)
            ]
            | inr c ↦ current q (inr (report_path-Current s t p q now g c))
          ],
        )
  ]
