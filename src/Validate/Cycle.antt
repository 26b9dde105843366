-- ===== src/Validate/Cycle.antt =====
-- src/validate.rs: the judgement against a node that is among its own `allOf`.
use mathlib.Core.List.{Memᴰ}
use mathlib.Core.List.Memᴰ.{head, tail, append_left}
use jawohl.Prelude.{
  ℕ, zero, suc, Bool, List, [], ◌∷◌, map, Option, none, some, ◌≡◌, refl, sym, ap, ◌∙◌, get_elem?,
}
use jawohl.Value.{Value}
use jawohl.Event.{Validation}
use jawohl.Schema.Pattern.{Dfa}
use jawohl.Schema.Node.{NodeId, Node}
use jawohl.Validate.Numbers.{Floats, NumberProfile}
use jawohl.Validate.Judge.{
  Rec, both, collect, fold_all, check_array, check_object, check_combinators, judge_checks, judge,
}

collect-missing : (xs : List (Option Validation)) → Memᴰ none xs → collect xs ≡ none
unfolding collect
collect-missing [] m = elim m [ ]
collect-missing (x ∷ xs) (head e) = ap (λ y. both (λ v vs. v ∷ vs) y (collect xs)) (sym e)
collect-missing (none ∷ xs) (tail m) = refl
collect-missing (some v ∷ xs) (tail m) = ap (both (λ v vs. v ∷ vs) (some v)) (collect-missing xs m)

Mem-map :
    (f : NodeId → Option Validation) (id : NodeId) (ids : List NodeId)
    → Memᴰ id ids
    → f id ≡ none
    → Memᴰ none (map f ids)
Mem-map f id [] m e = elim m [ ]
Mem-map f id (j ∷ ids) (head same) e = head (sym e ∙ ap f same)
Mem-map f id (j ∷ ids) (tail m) e = tail (Mem-map f id ids m e)

module _ {F D : Type 0} (rec : Rec) (n : Node F D) (id : NodeId) (value : Value) (complete : Bool)
    (among : Memᴰ id n.all_of) (missing : rec id value complete ≡ none) where
  check_combinators-missing : check_combinators rec n value complete ≡ none
  unfolding check_combinators
  check_combinators-missing =
      let kept = append_left _ (
        append_left _
          (append_left _ (Mem-map (λ i. rec i value complete) id n.all_of among missing))) in
      ap (fold_all []) (collect-missing _ kept)

  judge_checks-missing :
      {S : Type 0} (floats : Floats F) (ops : Dfa D S) (profile : NumberProfile)
      (nodes : List (Node F D))
      → judge_checks floats ops profile nodes rec n value complete ≡ none
  judge_checks-missing floats ops profile nodes =
      rw
        (collect-missing
          (check_array rec n value complete
            ∷ check_object rec n value complete
            ∷ check_combinators rec n value complete
            ∷ [])
          (tail (tail (head (sym check_combinators-missing)))))
        refl

module _ {F D S : Type 0} (floats : Floats F) (ops : Dfa D S) (profile : NumberProfile)
    (nodes : List (Node F D)) where
  -- A node that is no boolean schema and is among its own `allOf` has no verdict, whatever the fuel
  -- and the value.
  pub judge-self_reference :
      (id : NodeId) (n : Node F D)
      → get_elem? nodes id ≡ some n
      → n.boolean ≡ none
      → Memᴰ id n.all_of
      → (fuel : ℕ) (value : Value) (complete : Bool)
      → judge floats ops profile nodes fuel id value complete ≡ none
  unfolding judge
  judge-self_reference id n found plain among zero value complete = refl
  judge-self_reference id n found plain among (suc fuel) value complete =
      let below = judge-self_reference id n found plain among fuel value complete in
      rw (found, plain)
        (judge_checks-missing (judge floats ops profile nodes fuel) n id value complete among below
          floats ops profile nodes)
