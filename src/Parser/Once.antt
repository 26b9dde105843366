-- ===== src/Parser/Once.antt =====
-- The event `DocumentCompleted` of src/parser.rs, counted.
pub mod Steps
use jawohl.Prelude.{
  ℕ, ◌+◌, ◌≡◌, refl, ap, ◌∙◌, Bool, true, false, List, [], ◌∷◌, ◌++◌, none, arith, Bytes,
  if◌then◌else◌,
}
use jawohl.Event.{
  Event, value_completed, document_completed, IsVerdict, validation_failed, validation_completed,
}
use jawohl.Value.{Value, number}
use jawohl.Parser.State.{
  Expect, Frame, StrState, raw, backslash, unicode, surrogate_hex, Tok, idle, str, num, lit, Parser,
  Outcome, fail, push_frame, slot_pointer, push_event, new, ok, document_complete, is_done, is_idle,
  drain_events, set_max_depth, set_enforce_plain_decimal,
}
use jawohl.Parser.Reach.{Reach, Reach-IsValid}
use jawohl.Parser.Structure.{
  Arm, close_bracket, attach, attach_to, close_container, close_frame, announce, open_value,
  begin_value, dispatch, step_structural,
}
use jawohl.Parser.Strings.{step_string, close_string, end_unicode, end_surrogate}
use jawohl.Parser.Numbers.{step_number, close_number}
use jawohl.Parser.Literals.{step_literal}
use jawohl.Parser.Feed.{
  step_tok, advance, closable_in, emit_progress_of, feed, finish, finish_from, finish_tok,
}
use jawohl.Parser.Ensures.{Ensures, Ensures-and, feed_bytes-Ensures, feed-Ensures}
use jawohl.Parser.Valid.{IsValid, TokFits}
use jawohl.Parser.Valid.Steps.{Any, step_tok-IsValid, advance-IsValid}
use jawohl.Parser.Once.Steps.{
  one, completions, closed, completions-push, Once, feed-Once, finish-Once,
}

-- A stream's life, with the number of times that the end was told in the events that were drained.
pub data Run : ℕ → Parser → Type 0 where
  fresh : Run 0 new
  limited : {n : ℕ} {p : Parser} (depth : ℕ) → Run n p → Run n (set_max_depth depth p)
  enforced : {n : ℕ} {p : Parser} (on : Bool) → Run n p → Run n (set_enforce_plain_decimal on p)
  pushed : {n : ℕ} {p q : Parser} (bytes : Bytes) → Run n p → feed bytes p ≡ ok tt q → Run n q
  drained : {n : ℕ} {p : Parser} → Run n p → Run (n + completions p.events) (drain_events p).1
  told : {n : ℕ} {p : Parser} (e : Event) → IsVerdict e → Run n p → Run n (push_event e p)
  finished : {n : ℕ} {p q : Parser} → Run n p → finish p ≡ ok tt q → Run n q

Run-Reach : {n : ℕ} {p : Parser} → Run n p → Reach p
Run-Reach fresh = Reach.fresh
Run-Reach (limited depth r) = Reach.limited depth (Run-Reach r)
Run-Reach (enforced on r) = Reach.enforced on (Run-Reach r)
Run-Reach (pushed bytes r e) = Reach.pushed bytes (Run-Reach r) e
Run-Reach (drained r) = Reach.drained (Run-Reach r)
Run-Reach (told e is r) = Reach.told e is (Run-Reach r)
Run-Reach (finished r e) = Reach.finished (Run-Reach r) e

verdict-one : (e : Event) → IsVerdict e → one e ≡ 0
verdict-one (validation_failed path state) is = refl
verdict-one (validation_completed path state) is = refl
verdict-one _ is = absurd is

Run-Once : {n : ℕ} {p : Parser} → Run n p → Once n p
unfolding drain_events set_enforce_plain_decimal set_max_depth completions
Run-Once fresh = omega arith
Run-Once (limited depth r) = Run-Once r
Run-Once (enforced on r) = Run-Once r
Run-Once (pushed {n} {p} bytes r e) =
    let (h, v) = Reach-IsValid (Run-Reach r) in rw e at (feed-Once n bytes p h v (Run-Once r))
Run-Once (drained r) = omega (arith, Run-Once r)
Run-Once (told {n} {p} e is r) =
    omega (arith, Run-Once r, completions-push p.events e, verdict-one e is)
Run-Once (finished {n} {p} r e) =
    let (h, v) = Reach-IsValid (Run-Reach r) in rw e at (finish-Once n p h v (Run-Once r))

closed_fits :
    (e : Expect) (t : Tok)
    → TokFits t e
    → closed e ≡ (if (if is_done e then is_idle t else false) then 1 else 0)
closed_fits Expect.done idle fits = refl
closed_fits Expect.done (str d s true n) fits = absurd fits
closed_fits Expect.done (str d s false n) fits = cc
closed_fits Expect.done (num text s) fits = cc
closed_fits Expect.done (lit text) fits = cc
closed_fits _ t fits = refl

closed_complete :
    (p : Parser) → IsValid 0 p → closed p.expect ≡ (if document_complete p then 1 else 0)
unfolding document_complete
closed_complete p valid = closed_fits p.expect p.tok valid.token

-- The end of the document is told exactly once: the events that were drained and the log together
-- hold `DocumentCompleted` once where the document is complete, and not at all before, however the
-- input is cut into chunks and whenever the log is drained.
pub Run-completions :
    {n : ℕ} {p : Parser}
    → Run n p
    → n + completions p.events ≡ (if document_complete p then 1 else 0)
Run-completions {n} {p} r = Run-Once r ∙ closed_complete p (Reach-IsValid (Run-Reach r)).1
