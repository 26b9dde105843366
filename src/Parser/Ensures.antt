-- ===== src/Parser/Ensures.antt =====
-- Postconditions of the parser's operations, and the rule for the loop over a chunk.
use jawohl.Prelude.{ℕ, [], ◌∷◌, ◌≡◌, ap, none, Bytes}
use jawohl.Error.{ParseError}
use jawohl.Parser.State.{Parser, Outcome, ok, err, panic, ◌>>=◌}
use jawohl.Parser.Feed.{step, advance, emit_progress, feed_bytes, feed_from, feed}

-- A success ends in `I`, a failure in `E`, and there is no panic.
abbrev pub Ensures :
    {A : Type 0} → (Parser → Type 0) → (ParseError → Parser → Type 0) → Outcome A → Type 0
Ensures I E (ok a p) = I p
Ensures I E (err e p) = E e p
Ensures I E panic = ⊥

module _ {A B : Type 0} (I J : Parser → Type 0) (E : ParseError → Parser → Type 0) where
  pub Ensures-bind :
      (m : Outcome A) (f : A → Parser → Outcome B)
      → Ensures I E m
      → ((a : A) (q : Parser) → I q → Ensures J E (f a q))
      → Ensures J E (m >>= f)
  Ensures-bind (ok a p) f h k = k a p h
  Ensures-bind (err e p) f h k = h
  Ensures-bind panic f h k = h

-- An invariant between the bytes of a chunk; `J` holds after a byte is dispatched, before the
-- offset moves on.
module _ (I J : Parser → Type 0) (E : ParseError → Parser → Type 0)
    (step-J : (b : ℕ) (p : Parser) → I p → Ensures J E (step b p))
    (advance-I : (p : Parser) → J p → I (advance p)) where
  pub feed_bytes-Ensures : (bs : Bytes) (p : Parser) → I p → Ensures I E (feed_bytes bs p)
  unfolding feed_bytes
  feed_bytes-Ensures [] p h = h
  feed_bytes-Ensures (b ∷ bs) p h =
      Ensures-bind J I E (step b p) _ (step-J b p h)
        λ _ q j. feed_bytes-Ensures bs (advance q) (advance-I q j)

pub feed-fresh :
    (bs : Bytes) (p : Parser)
    → p.failed ≡ none
    → feed bs p ≡ (feed_bytes bs p >>= λ _ q. ok tt (emit_progress q))
unfolding feed
feed-fresh bs p h = ap (λ o. feed_from o bs p) h

-- A chunk fed to a parser with no failure.
pub feed-Ensures :
    (I K : Parser → Type 0) (E : ParseError → Parser → Type 0)
    → ((p : Parser) → I p → K (emit_progress p))
    → (bs : Bytes) (p : Parser) → p.failed ≡ none
    → Ensures I E (feed_bytes bs p)
    → Ensures K E (feed bs p)
feed-Ensures I K E progress bs p none_yet h =
    rw (feed-fresh bs p none_yet) (Ensures-bind I K E (feed_bytes bs p) _ h (λ _ q i. progress q i))

-- Two postconditions at once.
pub Ensures-and :
    {A : Type 0} (I J : Parser → Type 0) (E : ParseError → Parser → Type 0) (m : Outcome A)
    → Ensures I E m
    → Ensures J E m
    → Ensures (λ p. I p × J p) E m
Ensures-and I J E (ok a p) h k = (h, k)
Ensures-and I J E (err e p) h k = h
Ensures-and I J E panic h k = h

-- The postcondition of the one on success, of the other on both.
pub Ensures-both :
    {A : Type 0} (I J : Parser → Type 0) (D E : ParseError → Parser → Type 0) (m : Outcome A)
    → Ensures I D m
    → Ensures J E m
    → Ensures (λ p. I p × J p) E m
Ensures-both I J D E (ok a p) h k = (h, k)
Ensures-both I J D E (err e p) h k = k
Ensures-both I J D E panic h k = h
