-- ===== src/Validate/Verdict/Worst.antt =====
-- `Validation::fold` of src/validate.rs as the worst of its parts.
use jawohl.Prelude.{
  ℕ, leb, ◌≢◌, Bool, true, false, List, [], ◌∷◌, ◌++◌, ◌≡◌, refl, sym, ap, ◌∙◌, arith,
  if◌then◌else◌,
}
use jawohl.Event.{Validation, pending, valid_so_far, valid, invalid, irrecoverably_invalid}
use jawohl.Validate.Verdict.{fold_from, fold}

-- The worse of two verdicts; a part that is valid says no more than one that is so far.
abbrev pub worse : Validation → Validation → Validation
worse irrecoverably_invalid _ = irrecoverably_invalid
worse invalid irrecoverably_invalid = irrecoverably_invalid
worse invalid _ = invalid
worse pending irrecoverably_invalid = irrecoverably_invalid
worse pending invalid = invalid
worse pending _ = pending
worse _ irrecoverably_invalid = irrecoverably_invalid
worse _ invalid = invalid
worse _ pending = pending
worse _ _ = valid_so_far

-- What the two flags stand for.
abbrev seen : Bool → Bool → Validation
seen i p = if i then invalid else if p then pending else valid_so_far

fold_from-worse :
    (i p : Bool) (xs : List Validation)
    → fold_from i p xs ≡ worse (seen i p) (fold_from false false xs)
unfolding fold_from
fold_from-worse i p [] = ground arith
fold_from-worse i p (irrecoverably_invalid ∷ xs) = ground arith
fold_from-worse i p (invalid ∷ xs) =
    ground (arith, fold_from-worse true p xs, fold_from-worse true false xs)
fold_from-worse i p (pending ∷ xs) =
    ground (arith, fold_from-worse i true xs, fold_from-worse false true xs)
fold_from-worse i p (valid_so_far ∷ xs) = fold_from-worse i p xs
fold_from-worse i p (valid ∷ xs) = fold_from-worse i p xs

worse_assoc : (a b c : Validation) → worse (worse a b) c ≡ worse a (worse b c)
worse_assoc a b c = ground arith

fold-cons : (x : Validation) (xs : List Validation) → fold (x ∷ xs) ≡ worse x (fold xs)
unfolding fold fold_from
fold-cons irrecoverably_invalid xs = refl
fold-cons invalid xs = ground (arith, fold_from-worse true false xs)
fold-cons pending xs = ground (arith, fold_from-worse false true xs)
fold-cons valid_so_far xs = ground (arith, fold_from-worse false false xs)
fold-cons valid xs = ground (arith, fold_from-worse false false xs)

worse_good : (ys : List Validation) → fold ys ≡ worse (fold []) (fold ys)
unfolding fold fold_from
worse_good ys = fold_from-worse false false ys

pub fold-append : (xs ys : List Validation) → fold (xs ++ ys) ≡ worse (fold xs) (fold ys)
fold-append [] ys = worse_good ys
fold-append (x ∷ xs) ys =
    fold-cons x (xs ++ ys)
    ∙ ap (worse x) (fold-append xs ys)
    ∙ sym (worse_assoc x (fold xs) (fold ys))
    ∙ ap (λ w. worse w (fold ys)) (sym (fold-cons x xs))

-- How grave a verdict is.
abbrev pub severity : Validation → ℕ
severity irrecoverably_invalid = 3
severity invalid = 2
severity pending = 1
severity valid_so_far = 0
severity valid = 0

-- The gravest of some verdicts; nothing is found against no verdict.
abbrev pub gravest : List Validation → ℕ
gravest [] = 0
gravest (x ∷ xs) = if leb (severity x) (gravest xs) then gravest xs else severity x

severity-worse :
    (x y : Validation)
    → severity (worse x y) ≡ (if leb (severity x) (severity y) then severity y else severity x)
severity-worse x y = ground arith

severity-fold : (parts : List Validation) → severity (fold parts) ≡ gravest parts
severity-fold [] = unfold fold in unfold fold_from in refl
severity-fold (x ∷ xs) =
    ap severity (fold-cons x xs)
    ∙ severity-worse x (fold xs)
    ∙ ap (λ n. if leb (severity x) n then n else severity x) (severity-fold xs)

worse_open : (x y : Validation) → worse x y ≢ valid
worse_open x y e = ground arith

fold-open : (parts : List Validation) → fold parts ≢ valid
fold-open [] e = unfold fold in unfold fold_from in cc
fold-open (x ∷ xs) e = worse_open x (fold xs) (sym (fold-cons x xs) ∙ e)

-- The parts fold to the gravest verdict among them, where beyond repair outranks invalid, invalid
-- outranks pending, and pending outranks both that are good; and never to a final `Valid`.
pub fold-worst :
    (parts : List Validation) → (severity (fold parts) ≡ gravest parts) × (fold parts ≢ valid)
fold-worst parts = (severity-fold parts, fold-open parts)
