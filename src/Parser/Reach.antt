-- ===== src/Parser/Reach.antt =====
-- The states of src/parser.rs that a client can bring about, as a relation.
use jawohl.Prelude.{ℕ, ◌≡◌, refl, Bool, none, arith, Bytes}
use jawohl.Event.{Event, IsVerdict}
use jawohl.Parser.State.{
  Parser, new, ok, push_event, drain_events, set_max_depth, set_enforce_plain_decimal,
}
use jawohl.Parser.Feed.{feed, finish}
use jawohl.Parser.Ensures.{Ensures, feed_bytes-Ensures, feed-Ensures}
use jawohl.Parser.Latch.{feed-Latches, finish-Latches}
use jawohl.Parser.Valid.{IsValid}
use jawohl.Parser.Valid.Steps.{
  Any, step_tok-IsValid, advance-IsValid, emit_progress-IsValid, finish-IsValid,
}

-- Chunks are pushed while they are accepted; the settings are changed, and the log is drained, or a
-- verdict added to it, at any time.
pub data Reach : Parser → Type 0 where
  fresh : Reach new
  limited : {p : Parser} (depth : ℕ) → Reach p → Reach (set_max_depth depth p)
  enforced : {p : Parser} (on : Bool) → Reach p → Reach (set_enforce_plain_decimal on p)
  pushed : {p q : Parser} (bytes : Bytes) → Reach p → feed bytes p ≡ ok tt q → Reach q
  drained : {p : Parser} → Reach p → Reach (drain_events p).1
  told : {p : Parser} (e : Event) → IsVerdict e → Reach p → Reach (push_event e p)
  finished : {p q : Parser} → Reach p → finish p ≡ ok tt q → Reach q

-- A chunk keeps a well-formed parser well-formed.
pub feed-IsValid :
    (bytes : Bytes) (p : Parser)
    → p.failed ≡ none
    → IsValid 0 p
    → Ensures (IsValid 0) Any (feed bytes p)
feed-IsValid bytes p h v =
    feed-Ensures (IsValid 0) (IsValid 0) Any (λ q i. emit_progress-IsValid q.tok q i) bytes p h
      (feed_bytes-Ensures (IsValid 0) (IsValid 1) Any (λ b q i. step_tok-IsValid q.tok b q refl i)
        advance-IsValid bytes p v)

-- Each reachable state has no failure and is well-formed: the expectation fits the innermost frame,
-- the path prefix spells the enclosing slots, commit and pending are in range; however the settings are
-- changed between the chunks.
pub Reach-IsValid : {p : Parser} → Reach p → (p.failed ≡ none) × IsValid 0 p
unfolding drain_events set_enforce_plain_decimal set_max_depth
Reach-IsValid fresh = ground arith
Reach-IsValid (limited {p} depth r) = let (h, v) = Reach-IsValid r in ground arith
Reach-IsValid (enforced {p} on r) = let (h, v) = Reach-IsValid r in ground arith
Reach-IsValid (pushed {p} bytes r e) =
    let (h, v) = Reach-IsValid r in
    (rw e at (feed-Latches bytes p h), rw e at (feed-IsValid bytes p h v))
Reach-IsValid (drained {p} r) = let (h, v) = Reach-IsValid r in ground arith
Reach-IsValid (told {p} e is r) = let (h, v) = Reach-IsValid r in ground arith
Reach-IsValid (finished {p} r e) =
    let (h, v) = Reach-IsValid r in (rw e at (finish-Latches p h), rw e at (finish-IsValid p h v))
