-- ===== src/Parser/Chunks.antt =====
-- When two states of src/parser.rs, or two outcomes, agree in all but the reports of an open string's growth.
pub mod Steps
pub mod Boundaries
use jawohl.Prelude.{Bool, true, false, if◌then◌else◌, ◌≡◌, refl, sym, ap, ◌∙◌, List, [], ◌∷◌, ◌++◌}
use jawohl.Event.{Event, value_progressed}
use jawohl.Parser.State.{Parser, Outcome, ok, err, panic, ◌>>=◌}

-- The log without the reports of progress.
abbrev pub settled : List Event → List Event
settled [] = []
settled (value_progressed path prefix ∷ es) = settled es
settled (e ∷ es) = e ∷ settled es

-- The parsers agree in all but progress.
pub record Agree (p q : Parser) : Type 0 where
  pub stack : p.stack ≡ q.stack
  pub expect : p.expect ≡ q.expect
  pub tok : p.tok ≡ q.tok
  pub root : p.root ≡ q.root
  pub failed : p.failed ≡ q.failed
  pub offset : p.offset ≡ q.offset
  pub events : settled p.events ≡ settled q.events
  pub path_prefix : p.path_prefix ≡ q.path_prefix
  pub profile : p.enforce_plain_decimal ≡ q.enforce_plain_decimal
  pub max_depth : p.max_depth ≡ q.max_depth
  pub commit : p.commit ≡ q.commit

-- The outcomes are of one kind, with one value or error, and their parsers agree.
abbrev pub SameOutcome : {A : Type 0} → Outcome A → Outcome A → Type 0
SameOutcome (ok a p) (ok b q) = (a ≡ b) × Agree p q
SameOutcome (err e p) (err f q) = (e ≡ f) × Agree p q
SameOutcome panic panic = Unit
SameOutcome _ _ = ⊥

pub settled-append : (xs ys : List Event) → settled (xs ++ ys) ≡ settled xs ++ settled ys
settled-append [] ys = refl
settled-append (value_progressed path prefix ∷ es) ys = settled-append es ys
settled-append (e ∷ es) ys = ap (λ (l : List Event). e ∷ l) (settled-append es ys)

pub Agree-refl : (p : Parser) → Agree p p
Agree-refl p = record {
  stack = refl;
  expect = refl;
  tok = refl;
  root = refl;
  failed = refl;
  offset = refl;
  events = refl;
  path_prefix = refl;
  profile = refl;
  max_depth = refl;
  commit = refl;
}

pub Agree-sym : {p q : Parser} → Agree p q → Agree q p
Agree-sym a = record {
  stack = sym a.stack;
  expect = sym a.expect;
  tok = sym a.tok;
  root = sym a.root;
  failed = sym a.failed;
  offset = sym a.offset;
  events = sym a.events;
  path_prefix = sym a.path_prefix;
  profile = sym a.profile;
  max_depth = sym a.max_depth;
  commit = sym a.commit;
}

pub Agree-trans : {p q r : Parser} → Agree p q → Agree q r → Agree p r
Agree-trans a b = record {
  stack = a.stack ∙ b.stack;
  expect = a.expect ∙ b.expect;
  tok = a.tok ∙ b.tok;
  root = a.root ∙ b.root;
  failed = a.failed ∙ b.failed;
  offset = a.offset ∙ b.offset;
  events = a.events ∙ b.events;
  path_prefix = a.path_prefix ∙ b.path_prefix;
  profile = a.profile ∙ b.profile;
  max_depth = a.max_depth ∙ b.max_depth;
  commit = a.commit ∙ b.commit;
}

pub SameOutcome-if :
    {A : Type 0} (b : Bool) (x x' y y' : Outcome A)
    → SameOutcome x x'
    → SameOutcome y y'
    → SameOutcome (if b then x else y) (if b then x' else y')
SameOutcome-if true x x' y y' h k = h
SameOutcome-if false x x' y y' h k = k

pub SameOutcome-bind :
    {A B : Type 0} (m n : Outcome A) (f : A → Parser → Outcome B)
    → SameOutcome m n
    → ((a : A) (p q : Parser) → Agree p q → SameOutcome (f a p) (f a q))
    → SameOutcome (m >>= f) (n >>= f)
SameOutcome-bind (ok a p) (ok b q) f h k = rw h.0 (k b p q h.1)
SameOutcome-bind (err e p) (err x q) f h k = h
SameOutcome-bind panic panic f h k = tt
SameOutcome-bind (ok a p) (err x q) f h k = absurd h
SameOutcome-bind (ok a p) panic f h k = absurd h
SameOutcome-bind (err e p) (ok a q) f h k = absurd h
SameOutcome-bind (err e p) panic f h k = absurd h
SameOutcome-bind panic (ok a q) f h k = absurd h
SameOutcome-bind panic (err x q) f h k = absurd h
