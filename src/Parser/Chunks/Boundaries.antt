-- ===== src/Parser/Chunks/Boundaries.antt =====
-- A document pushed in any chunks against the same bytes pushed at once.
use mathlib.Core.List.{flatten}
use jawohl.Prelude.{◌≡◌, refl, sym, ◌∙◌, List, [], ◌∷◌, ◌++◌, none, arith, Bytes}
use jawohl.Parser.State.{Parser, Outcome, ok, err, panic, ◌>>=◌}
use jawohl.Parser.Feed.{step, advance, emit_progress, feed_bytes, feed}
use jawohl.Parser.Ensures.{feed-fresh}
use jawohl.Parser.Latch.{Latches, feed-Latches}
use jawohl.Parser.Chunks.{Agree, Agree-refl, Agree-sym, Agree-trans, SameOutcome, SameOutcome-bind}
use jawohl.Parser.Chunks.Steps.{step-Agree, advance-Agree, emit_progress-Agree}

-- A client's loop over the chunks of a stream.
unfoldable pub push_all : List Bytes → Parser → Outcome Unit
push_all [] p = ok tt p
push_all (chunk ∷ chunks) p = feed chunk p >>= λ _ q. push_all chunks q

module _ {A : Type 0} where
  SameOutcome-refl : (m : Outcome A) → SameOutcome m m
  SameOutcome-refl (ok a p) = (refl, Agree-refl p)
  SameOutcome-refl (err e p) = (refl, Agree-refl p)
  SameOutcome-refl panic = tt

  SameOutcome-trans : (m n o : Outcome A) → SameOutcome m n → SameOutcome n o → SameOutcome m o
  SameOutcome-trans (ok a p) (ok b q) (ok c r) h k = (h.0 ∙ k.0, Agree-trans h.1 k.1)
  SameOutcome-trans (err e p) (err f q) (err g r) h k = (h.0 ∙ k.0, Agree-trans h.1 k.1)
  SameOutcome-trans panic panic panic h k = tt
  SameOutcome-trans _ _ _ h k = ground arith

feed_bytes-Agree :
    (bs : Bytes) (p q : Parser) → Agree p q → SameOutcome (feed_bytes bs p) (feed_bytes bs q)
unfolding feed_bytes
feed_bytes-Agree [] p q a = (refl, a)
feed_bytes-Agree (b ∷ bs) p q a =
    SameOutcome-bind (step b p) (step b q) _ (step-Agree b p q a)
      (λ _ x y e. feed_bytes-Agree bs (advance x) (advance y) (advance-Agree x y e))

regroup :
    (m : Outcome Unit) (f g h : Parser → Outcome Unit)
    → ((q : Parser) → f q ≡ (g q >>= λ _ r. h r))
    → (m >>= λ _ q. f q) ≡ ((m >>= λ _ q. g q) >>= λ _ r. h r)
regroup (ok a p) f g h e = e p
regroup (err x p) f g h e = refl
regroup panic f g h e = refl

-- Dispatching one text after another is dispatching both.
pub feed_bytes-append :
    (xs ys : Bytes) (p : Parser)
    → feed_bytes (xs ++ ys) p ≡ (feed_bytes xs p >>= λ _ q. feed_bytes ys q)
unfolding feed_bytes
feed_bytes-append [] ys p = refl
feed_bytes-append (x ∷ xs) ys p =
    regroup (step x p) _ _ _ (λ q. feed_bytes-append xs ys (advance q))

-- From agreeing outcomes, with a continuation each.
continued :
    (m n : Outcome Unit) (f g : Unit → Parser → Outcome Unit)
    → SameOutcome m n
    → Latches m
    → ((p q : Parser) → p.failed ≡ none → Agree p q → SameOutcome (f tt p) (g tt q))
    → SameOutcome (m >>= f) (n >>= g)
continued (ok a p) (ok b q) f g h l k = k p q l h.1
continued (err e p) (err x q) f g h l k = h
continued panic n f g h l k = absurd l
continued (ok a p) (err x q) f g h l k = absurd h
continued (ok a p) panic f g h l k = absurd h
continued (err e p) (ok a q) f g h l k = absurd h
continued (err e p) panic f g h l k = absurd h

SameOutcome-sym : (m n : Outcome Unit) → SameOutcome m n → SameOutcome n m
SameOutcome-sym (ok a p) (ok b q) h = (sym h.0, Agree-sym h.1)
SameOutcome-sym (err e p) (err f q) h = (sym h.0, Agree-sym h.1)
SameOutcome-sym panic panic h = tt
SameOutcome-sym _ _ h = ground arith

progress_aside : (m : Outcome Unit) → SameOutcome (m >>= λ _ q. ok tt (emit_progress q)) m
progress_aside (ok a p) = (refl, emit_progress-Agree p.tok p)
progress_aside (err e p) = (refl, Agree-refl p)
progress_aside panic = tt

feed-feed_bytes :
    (bs : Bytes) (p : Parser) → p.failed ≡ none → SameOutcome (feed bs p) (feed_bytes bs p)
feed-feed_bytes bs p h = rw (feed-fresh bs p h) (progress_aside (feed_bytes bs p))

push_all-feed_bytes :
    (chunks : List Bytes) (p : Parser)
    → p.failed ≡ none
    → SameOutcome (push_all chunks p) (feed_bytes (flatten chunks) p)
unfolding push_all feed_bytes flatten
push_all-feed_bytes [] p h = (refl, Agree-refl p)
push_all-feed_bytes (chunk ∷ chunks) p h = rw (feed_bytes-append chunk (flatten chunks) p) (
    continued (feed chunk p) (feed_bytes chunk p) _ _ (feed-feed_bytes chunk p h)
      (feed-Latches chunk p h)
      (λ q r fresh a.
        SameOutcome-trans _ _ _ (push_all-feed_bytes chunks q fresh)
          (feed_bytes-Agree (flatten chunks) q r a)))

-- A fresh parser that is given a document in chunks ends in the same outcome, with the same error
-- and offset, as one that is given the whole document at once; the two states, logs included, differ
-- at most in the reports of an open string's progress.
pub chunks-irrelevant :
    (chunks : List Bytes) (p : Parser)
    → p.failed ≡ none
    → SameOutcome (push_all chunks p) (feed (flatten chunks) p)
chunks-irrelevant chunks p h =
    SameOutcome-trans _ _ _ (push_all-feed_bytes chunks p h)
      (SameOutcome-sym _ _ (feed-feed_bytes (flatten chunks) p h))
