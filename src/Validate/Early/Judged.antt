-- ===== src/Validate/Early/Judged.antt =====
-- The judgement of a string, of a prefix and of the whole text, by induction on the fuel.
use mathlib.Core.Path.{subst}
use jawohl.Prelude.{
  ℕ, zero, suc, Bool, true, false, List, [], ◌∷◌, ◌++◌, map, Option, none, some, ◌≡◌, refl, arith,
  Bytes, get_elem?,
}
use jawohl.Value.{string, partial_string}
use jawohl.Event.{Validation, pending, valid_so_far, valid, irrecoverably_invalid}
use jawohl.Schema.Pattern.{Dfa}
use jawohl.Schema.Node.{TypeSet, NodeId, Node}
use jawohl.Validate.Verdict.{fold, is_failure, is_irrecoverable, kind_of}
use jawohl.Validate.Scalars.{check_enum_and_const, check_string}
use jawohl.Validate.Numbers.{Floats, NumberProfile, check_number, check_type, type_part}
use jawohl.Validate.Judge.{
  Rec, collect, fold_all, promote_all, any_of_part, one_of_part, not_part, check_array,
  check_object, check_combinators, judge_checks, judge_node, judge,
}
use jawohl.Validate.Early.Rejects.{
  Rejects, Rejects-append, Rejects-none, Rejects-cons, RejectsIf, Parts, no_part, part,
  Parts-append, AllRejects, collect-AllRejects,
}
use jawohl.Validate.Early.Strings.{
  IsBuilt, EndsDead, IsUndecided, check_string-Rejects, check_enum_and_const-Rejects,
}

fold_all-Rejects :
    (xs ys : List Validation) (more others : Option (List Validation))
    → Rejects (fold xs) (fold ys)
    → AllRejects more others
    → RejectsIf (fold_all xs more) (fold_all ys others)
fold_all-Rejects xs ys (some more) (some others) h k = Rejects-append xs ys more others h k
fold_all-Rejects xs ys none others h k = tt
fold_all-Rejects xs ys (some more) none h k = tt

promote-Rejects :
    (x y : Option Validation) → RejectsIf x y → RejectsIf (promote_all false x) (promote_all true y)
unfolding is_irrecoverable is_failure
promote-Rejects (some a) (some b) h = ground (arith, h)
promote-Rejects none y h = tt
promote-Rejects (some a) none h = tt

-- What is decided at completion is pending before.
pending_part : (y : Option Validation) → RejectsIf (some pending) y
unfolding is_irrecoverable
pending_part none = tt
pending_part (some b) = λ h. absurd (ground arith)

so_far : Rejects valid_so_far valid_so_far
unfolding is_irrecoverable
so_far h = cc

so_valid : Rejects valid_so_far valid
unfolding is_irrecoverable
so_valid h = cc

beyond_repair : Rejects irrecoverably_invalid irrecoverably_invalid
unfolding is_failure
beyond_repair h = refl

module _ (rec : Rec) (s rest : Bytes)
    (below : (id : NodeId)
      → RejectsIf (rec id (partial_string s) false) (rec id (string (s ++ rest)) true)) where
  all_of-Parts :
      (ids : List NodeId)
      → Parts
          (map (λ id. rec id (partial_string s) false) ids)
          (map (λ id. rec id (string (s ++ rest)) true) ids)
  all_of-Parts [] = no_part
  all_of-Parts (id ∷ ids) = part (below id) (all_of-Parts ids)

  any_of-Parts :
      (ids : List NodeId)
      → Parts
          (any_of_part rec ids (partial_string s) false)
          (any_of_part rec ids (string (s ++ rest)) true)
  any_of-Parts [] = no_part
  any_of-Parts (id ∷ ids) = part (pending_part _) no_part

  one_of-Parts :
      (ids : List NodeId)
      → Parts
          (one_of_part rec ids (partial_string s) false)
          (one_of_part rec ids (string (s ++ rest)) true)
  one_of-Parts [] = no_part
  one_of-Parts (id ∷ ids) = part (pending_part _) no_part

  not-Parts :
      (id : Option NodeId)
      → Parts (not_part rec id (partial_string s) false) (not_part rec id (string (s ++ rest)) true)
  not-Parts none = no_part
  not-Parts (some id) = part (pending_part _) no_part

  module _ {F D : Type 0} (n : Node F D) where
    check_combinators-Rejects :
        RejectsIf
          (check_combinators rec n (partial_string s) false)
          (check_combinators rec n (string (s ++ rest)) true)
    unfolding check_combinators
    check_combinators-Rejects = fold_all-Rejects [] [] _ _ (Rejects-none []) (
        collect-AllRejects (
          Parts-append
            (Parts-append (Parts-append (all_of-Parts n.all_of) (any_of-Parts n.any_of))
              (one_of-Parts n.one_of))
            (not-Parts n.not_node)))

    parts-Rejects :
        AllRejects
          (collect (
            check_array rec n (partial_string s) false
            ∷ check_object rec n (partial_string s) false
            ∷ check_combinators rec n (partial_string s) false
            ∷ []))
          (collect (
            check_array rec n (string (s ++ rest)) true
            ∷ check_object rec n (string (s ++ rest)) true
            ∷ check_combinators rec n (string (s ++ rest)) true
            ∷ []))
    unfolding check_array check_object
    parts-Rejects = collect-AllRejects (
        part {x = some valid_so_far} {y = some valid_so_far} so_far (
          part {x = some valid_so_far} {y = some valid_so_far} so_far
            (part check_combinators-Rejects no_part)))

type_part-Rejects :
    {F : Type 0} (floats : Floats F) (types : Option TypeSet) (s rest : Bytes)
    → Rejects
        (type_part floats types (partial_string s) false)
        (type_part floats types (string (s ++ rest)) true)
unfolding kind_of is_irrecoverable is_failure
type_part-Rejects floats none s rest h = cc
type_part-Rejects floats (some want) s rest h = ground arith

scalars-Rejects :
    {F D S : Type 0} (floats : Floats F) (ops : Dfa D S) (anchored : D → Bytes → Bool)
    → EndsDead ops anchored
    → (profile : NumberProfile) (n : Node F D) (s rest : Bytes) → IsBuilt n.enumeration
    → IsUndecided ops anchored s n.pattern
    → Rejects
        (fold (
          check_type floats n (partial_string s) false
          ∷ check_enum_and_const n (partial_string s) false
          ∷ check_string ops n (partial_string s) false
          ∷ check_number floats profile n (partial_string s) false
          ∷ []))
        (fold (
          check_type floats n (string (s ++ rest)) true
          ∷ check_enum_and_const n (string (s ++ rest)) true
          ∷ check_string ops n (string (s ++ rest)) true
          ∷ check_number floats profile n (string (s ++ rest)) true
          ∷ []))
unfolding check_type check_number
scalars-Rejects floats ops anchored law profile n s rest built undecided =
    Rejects-cons _ _ _ _ (type_part-Rejects floats n.types s rest) (
      Rejects-cons _ _ _ _ (check_enum_and_const-Rejects n s rest built) (
        Rejects-cons _ _ _ _ (check_string-Rejects ops anchored law n s rest undecided)
          (Rejects-cons valid_so_far valid_so_far [] [] so_far (Rejects-none []))))

-- Each `enum` was built of its members, and each pattern that may reject early is anchored and has no
-- match in the text in flight.
abbrev pub IsLawful :
    {F D S : Type 0} → Dfa D S → (D → Bytes → Bool) → Bytes → List (Node F D) → Type 0
IsLawful ops anchored s [] = Unit
IsLawful ops anchored s (n ∷ ns) =
    (IsBuilt n.enumeration × IsUndecided ops anchored s n.pattern) × IsLawful ops anchored s ns

some_inj {ℓ} : {A : Type ℓ} {x y : A} → some x ≡ some y → x ≡ y
some_inj e = cc

IsLawful-at :
    {F D S : Type 0} (ops : Dfa D S) (anchored : D → Bytes → Bool) (s : Bytes)
    (nodes : List (Node F D)) (i : ℕ) {n : Node F D}
    → IsLawful ops anchored s nodes
    → get_elem? nodes i ≡ some n
    → IsBuilt n.enumeration × IsUndecided ops anchored s n.pattern
unfolding get_elem?
IsLawful-at ops anchored s [] i l e = cc
IsLawful-at ops anchored s (n ∷ ns) zero l e =
    subst (λ m. IsBuilt m.enumeration × IsUndecided ops anchored s m.pattern) (some_inj e) l.0
IsLawful-at ops anchored s (n ∷ ns) (suc i) l e = IsLawful-at ops anchored s ns i l.1 e

module _ {F D S : Type 0} (floats : Floats F) (ops : Dfa D S) (anchored : D → Bytes → Bool)
    (law : EndsDead ops anchored) (profile : NumberProfile) (nodes : List (Node F D))
    (s rest : Bytes) (lawful : IsLawful ops anchored s nodes) where
  node-Rejects :
      (rec : Rec)
      → ((id : NodeId)
          → RejectsIf (rec id (partial_string s) false) (rec id (string (s ++ rest)) true))
      → (n : Node F D) → IsBuilt n.enumeration × IsUndecided ops anchored s n.pattern
      → RejectsIf
          (judge_node floats ops profile nodes rec (some n) (partial_string s) false)
          (judge_node floats ops profile nodes rec (some n) (string (s ++ rest)) true)
  node-Rejects rec below n fair = by_boolean n.boolean
    where
      by_boolean :
          (b : Option Bool)
          → RejectsIf
              (elim b [
                | some true ↦ some valid_so_far
                | some false ↦ some irrecoverably_invalid
                | none ↦ judge_checks floats ops profile nodes rec n (partial_string s) false
              ])
              (elim b [
                | some true ↦ some valid
                | some false ↦ some irrecoverably_invalid
                | none ↦ judge_checks floats ops profile nodes rec n (string (s ++ rest)) true
              ])
      by_boolean (some true) = so_valid
      by_boolean (some false) = beyond_repair
      by_boolean none = promote-Rejects _ _ (
          fold_all-Rejects _ _ _ _
            (scalars-Rejects floats ops anchored law profile n s rest fair.0 fair.1)
            (parts-Rejects rec s rest below n))

  looked_up-Rejects :
      (rec : Rec)
      → ((id : NodeId)
          → RejectsIf (rec id (partial_string s) false) (rec id (string (s ++ rest)) true))
      → (id : NodeId) (n : Option (Node F D)) → get_elem? nodes id ≡ n
      → RejectsIf
          (judge_node floats ops profile nodes rec n (partial_string s) false)
          (judge_node floats ops profile nodes rec n (string (s ++ rest)) true)
  looked_up-Rejects rec below id none e = tt
  looked_up-Rejects rec below id (some n) e =
      node-Rejects rec below n (IsLawful-at ops anchored s nodes id lawful e)

  judge-RejectsIf :
      (fuel : ℕ) (id : NodeId)
      → RejectsIf
          (judge floats ops profile nodes fuel id (partial_string s) false)
          (judge floats ops profile nodes fuel id (string (s ++ rest)) true)
  unfolding judge
  judge-RejectsIf zero id = tt
  judge-RejectsIf (suc fuel) id =
      looked_up-Rejects (judge floats ops profile nodes fuel) (judge-RejectsIf fuel) id
        (get_elem? nodes id) refl

  pub judge-rejects :
      (fuel : ℕ) (id : NodeId) (verdict : Validation)
      → judge floats ops profile nodes fuel id (partial_string s) false ≡ some irrecoverably_invalid
      → judge floats ops profile nodes fuel id (string (s ++ rest)) true ≡ some verdict
      → is_failure verdict ≡ true
  judge-rejects fuel id verdict early late =
      rw (early, late) at (judge-RejectsIf fuel id) (unfold is_irrecoverable in refl)
