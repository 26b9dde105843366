-- ===== src/Parser/Finished/Reached.antt =====
-- The invariant in each state that a client can reach, and what it says of the log.
use jawohl.Prelude.{arith}
use jawohl.Event.{Event, IsVerdict, validation_failed, validation_completed}
use jawohl.Parser.State.{Parser, drain_events, set_max_depth, set_enforce_plain_decimal}
use jawohl.Parser.Reach.{
  Reach, fresh, limited, enforced, pushed, drained, told, finished, Reach-IsValid,
}
use jawohl.Parser.Finished.{HoldsFinished, FinishedEvent, FinishedEvents-push}
use jawohl.Parser.Finished.Steps.{feed-HoldsFinished, finish-HoldsFinished}

verdict-FinishedEvent : (e : Event) → IsVerdict e → FinishedEvent e
verdict-FinishedEvent (validation_failed path state) is = tt
verdict-FinishedEvent (validation_completed path state) is = tt
verdict-FinishedEvent _ is = absurd is

-- In each reachable state, whatever is attached to an open container, is the root or is announced by
-- a `value_completed` of the log has no unfinished part, spells its numbers in JSON's grammar, and
-- holds well-formed UTF-8; and the number in flight is in the state that its text leads to.
pub Reach-HoldsFinished : {p : Parser} → Reach p → HoldsFinished p
unfolding drain_events set_enforce_plain_decimal set_max_depth
Reach-HoldsFinished fresh = ground arith
Reach-HoldsFinished (limited {p} depth r) = let h = Reach-HoldsFinished r in ground arith
Reach-HoldsFinished (enforced {p} on r) = let h = Reach-HoldsFinished r in ground arith
Reach-HoldsFinished (pushed {p} bytes r e) =
    rw e at (feed-HoldsFinished bytes p (Reach-IsValid r).0 (Reach-HoldsFinished r))
Reach-HoldsFinished (drained {p} r) = let h = Reach-HoldsFinished r in ground arith
Reach-HoldsFinished (told {p} e is r) =
    let h = Reach-HoldsFinished r in
    ground (arith, FinishedEvents-push p.events e h.log (verdict-FinishedEvent e is))
Reach-HoldsFinished (finished {p} r e) =
    rw e at (finish-HoldsFinished p (Reach-IsValid r).0 (Reach-HoldsFinished r))
