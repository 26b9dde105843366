-- ===== src/Validate/Early/Rejects.antt =====
-- Verdicts of a prefix and of the whole, part by part.
use jawohl.Prelude.{true, List, [], ◌∷◌, ◌++◌, Option, none, some, ◌≡◌, arith}
use jawohl.Event.{Validation}
use jawohl.Validate.Verdict.{fold_from, fold, is_failure, is_irrecoverable}
use jawohl.Validate.Verdict.Worst.{worse, fold-append}
use jawohl.Validate.Judge.{collect, both}

-- When the first is beyond repair, the second is a failure.
abbrev pub Rejects : Validation → Validation → Type 0
Rejects a b = is_irrecoverable a ≡ true → is_failure b ≡ true

pub Rejects-worse :
    (a a' b b' : Validation) → Rejects a a' → Rejects b b' → Rejects (worse a b) (worse a' b')
unfolding is_irrecoverable is_failure
Rejects-worse a a' b b' h k = ground (arith, h, k)

pub Rejects-append :
    (xs xs' ys ys' : List Validation)
    → Rejects (fold xs) (fold xs')
    → Rejects (fold ys) (fold ys')
    → Rejects (fold (xs ++ ys)) (fold (xs' ++ ys'))
Rejects-append xs xs' ys ys' h k =
    rw (fold-append xs ys, fold-append xs' ys')
      (Rejects-worse (fold xs) (fold xs') (fold ys) (fold ys') h k)

pub Rejects-one : (a b : Validation) → Rejects a b → Rejects (fold (a ∷ [])) (fold (b ∷ []))
unfolding fold fold_from is_irrecoverable is_failure
Rejects-one a b h = ground (arith, h)

pub Rejects-none : (ys : List Validation) → Rejects (fold []) (fold ys)
unfolding fold fold_from is_irrecoverable
Rejects-none ys h = cc

pub Rejects-cons :
    (a b : Validation) (xs ys : List Validation)
    → Rejects a b
    → Rejects (fold xs) (fold ys)
    → Rejects (fold (a ∷ xs)) (fold (b ∷ ys))
Rejects-cons a b xs ys h k = Rejects-append (a ∷ []) (b ∷ []) xs ys (Rejects-one a b h) k

-- The same of verdicts that may be missing.
abbrev pub RejectsIf : Option Validation → Option Validation → Type 0
RejectsIf (some a) (some b) = Rejects a b
RejectsIf _ _ = Unit

pub data Parts : List (Option Validation) → List (Option Validation) → Type 0 where
  no_part : Parts [] []
  part :
      {x y : Option Validation} {xs ys : List (Option Validation)}
      → RejectsIf x y
      → Parts xs ys
      → Parts (x ∷ xs) (y ∷ ys)

pub Parts-append :
    {xs xs' ys ys' : List (Option Validation)}
    → Parts xs xs'
    → Parts ys ys'
    → Parts (xs ++ ys) (xs' ++ ys')
Parts-append no_part k = k
Parts-append (part e h) k = part e (Parts-append h k)

abbrev pub AllRejects : Option (List Validation) → Option (List Validation) → Type 0
AllRejects (some xs) (some ys) = Rejects (fold xs) (fold ys)
AllRejects _ _ = Unit

both-AllRejects :
    (x y : Option Validation) (xs ys : Option (List Validation))
    → RejectsIf x y
    → AllRejects xs ys
    → AllRejects (both (λ v vs. v ∷ vs) x xs) (both (λ v vs. v ∷ vs) y ys)
both-AllRejects (some a) (some b) (some xs) (some ys) h k = Rejects-cons a b xs ys h k
both-AllRejects none y xs ys h k = tt
both-AllRejects (some a) y none ys h k = tt
both-AllRejects (some a) none (some xs) ys h k = tt
both-AllRejects (some a) (some b) (some xs) none h k = tt

pub collect-AllRejects :
    {xs ys : List (Option Validation)} → Parts xs ys → AllRejects (collect xs) (collect ys)
unfolding collect
collect-AllRejects no_part = Rejects-none []
collect-AllRejects (part {x} {y} {xs} {ys} e h) =
    both-AllRejects x y (collect xs) (collect ys) e (collect-AllRejects h)
