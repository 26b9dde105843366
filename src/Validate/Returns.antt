-- ===== src/Validate/Returns.antt =====
-- Enough fuel for the judgement of a string: a schema whose combinators form no cycle.
use mathlib.Core.List.{Memᴰ}
use mathlib.Core.List.Memᴰ.{head, tail, append_left, append_right}
use jawohl.Prelude.{
  ℕ, zero, suc, ◌<◌, if◌then◌else◌, not, Bool, true, false, List, [], ◌∷◌, ◌++◌, map, Option, none,
  some, ◌≡◌, refl, arith, get_elem?,
}
use jawohl.Value.{Value, string, partial_string}
use jawohl.Event.{Validation}
use jawohl.Validate.Verdict.{is_failure}
use jawohl.Schema.Pattern.{Dfa}
use jawohl.Schema.Node.{NodeId, Node}
use jawohl.Validate.Numbers.{Floats, NumberProfile}
use jawohl.Validate.Judge.{
  Rec, collect, fold_all, promote_all, any_step, hit_step, any_holds, hits, at_completion,
  verdict_of, is_one, fails, any_of_part, one_of_part, not_part, check_array, check_object,
  check_combinators, judge_node, judge,
}

abbrev pub Returns {ℓ} : {A : Type ℓ} → Option A → Type ℓ
Returns {A = A} o = (a : A) × (o ≡ some a)

none-Returns {ℓ} : {A : Type ℓ} → Returns {A = A} none → ⊥
none-Returns (a, e) = cc

abbrev AllReturn : List (Option Validation) → Type 0
AllReturn [] = Unit
AllReturn (x ∷ xs) = Returns x × AllReturn xs

AllReturn-append :
    (xs ys : List (Option Validation)) → AllReturn xs → AllReturn ys → AllReturn (xs ++ ys)
AllReturn-append [] ys h k = k
AllReturn-append (x ∷ xs) ys h k = (h.0, AllReturn-append xs ys h.1 k)

collect-Returns : (xs : List (Option Validation)) → AllReturn xs → Returns (collect xs)
unfolding collect
collect-Returns [] h = ([], refl)
collect-Returns (x ∷ xs) h =
    let (v, e) = h.0 in let (vs, es) = collect-Returns xs h.1 in (v ∷ vs, rw (e, es) refl)

fold_all-Returns :
    (parts : List Validation) (more : Option (List Validation))
    → Returns more
    → Returns (fold_all parts more)
fold_all-Returns parts more (vs, e) = rw e (_, refl)

promote_all-Returns :
    (complete : Bool) (o : Option Validation) → Returns o → Returns (promote_all complete o)
promote_all-Returns complete o (v, e) = rw e (_, refl)

-- The nodes that are judged on the same value.
abbrev pub in_place : {F D : Type 0} → Node F D → List NodeId
in_place n = n.all_of ++ n.any_of ++ n.one_of ++ elim n.not_node [ none ↦ [] | some id ↦ id ∷ [] ]

any_step-Returns :
    (o : Option Validation) (rest : Option Bool)
    → Returns o
    → Returns rest
    → Returns (any_step o rest)
any_step-Returns none rest h k = absurd (none-Returns h)
any_step-Returns (some v) rest h k =
    elim (is_failure v) as (λ b. Returns (if not b then some true else rest)) [
      | true ↦ k
      | false ↦ (true, refl)
    ]

hit_step-Returns :
    (o : Option Validation) (rest : Option ℕ) → Returns o → Returns rest → Returns (hit_step o rest)
hit_step-Returns none rest h k = absurd (none-Returns h)
hit_step-Returns (some v) none h k = absurd (none-Returns k)
hit_step-Returns (some v) (some n) h k =
    elim (is_failure v) as (λ b. Returns (if not b then some (suc n) else some n)) [
      | true ↦ (n, refl)
      | false ↦ (suc n, refl)
    ]

module _ (rec : Rec) (value : Value) where
  any_holds-Returns :
      (ids : List NodeId)
      → ((id : NodeId) → Memᴰ id ids → Returns (rec id value true))
      → Returns (any_holds rec ids value)
  unfolding any_holds
  any_holds-Returns [] below = (false, refl)
  any_holds-Returns (id ∷ ids) below =
      let (v, e) = below id (head refl) in
      let (b, f) = any_holds-Returns ids (λ i m. below i (tail m)) in
      any_step-Returns (rec id value true) (any_holds rec ids value) (v, e) (b, f)

  hits-Returns :
      (ids : List NodeId)
      → ((id : NodeId) → Memᴰ id ids → Returns (rec id value true))
      → Returns (hits rec ids value)
  unfolding hits
  hits-Returns [] below = (0, refl)
  hits-Returns (id ∷ ids) below =
      let (v, e) = below id (head refl) in
      let (k, f) = hits-Returns ids (λ i m. below i (tail m)) in
      hit_step-Returns (rec id value true) (hits rec ids value) (v, e) (k, f)

  all_of-Returns :
      (complete : Bool) (ids : List NodeId)
      → ((id : NodeId) → Memᴰ id ids → Returns (rec id value complete))
      → AllReturn (map (λ id. rec id value complete) ids)
  all_of-Returns complete [] below = tt
  all_of-Returns complete (id ∷ ids) below =
      (below id (head refl), all_of-Returns complete ids (λ i m. below i (tail m)))

  verdict_of-Returns : (o : Option Bool) → Returns o → Returns (verdict_of o)
  verdict_of-Returns o (b, e) = rw e (_, refl)

  at_completion-Returns :
      (complete : Bool) (o : Option Bool) → Returns o → AllReturn (at_completion complete o)
  at_completion-Returns true o h = (verdict_of-Returns o h, tt)
  at_completion-Returns false o h = ((_, refl), tt)

  any_of-Returns :
      (complete : Bool) (ids : List NodeId)
      → ((id : NodeId) → Memᴰ id ids → Returns (rec id value true))
      → AllReturn (any_of_part rec ids value complete)
  any_of-Returns complete [] below = tt
  any_of-Returns complete (id ∷ ids) below =
      at_completion-Returns complete _ (any_holds-Returns (id ∷ ids) below)

  is_one-Returns : (o : Option ℕ) → Returns o → Returns (is_one o)
  is_one-Returns o (n, e) = rw e (_, refl)

  one_of-Returns :
      (complete : Bool) (ids : List NodeId)
      → ((id : NodeId) → Memᴰ id ids → Returns (rec id value true))
      → AllReturn (one_of_part rec ids value complete)
  one_of-Returns complete [] below = tt
  one_of-Returns complete (id ∷ ids) below =
      at_completion-Returns complete _ (is_one-Returns _ (hits-Returns (id ∷ ids) below))

  fails-Returns : (o : Option Validation) → Returns o → Returns (fails o)
  fails-Returns o (v, e) = rw e (_, refl)

  not-Returns :
      (complete : Bool) (id : Option NodeId)
      → ((i : NodeId)
          → Memᴰ i (elim id [ none ↦ [] | some j ↦ j ∷ [] ])
          → Returns (rec i value true))
      → AllReturn (not_part rec id value complete)
  not-Returns complete none below = tt
  not-Returns complete (some id) below =
      at_completion-Returns complete _ (fails-Returns _ (below id (head refl)))

  module _ {F D : Type 0} (n : Node F D)
      (below : (id : NodeId) (complete : Bool)
        → Memᴰ id (in_place n)
        → Returns (rec id value complete)) where
    combinators-Returns : (complete : Bool) → Returns (check_combinators rec n value complete)
    unfolding check_combinators
    combinators-Returns complete = fold_all-Returns [] _ (
        collect-Returns _ (
          AllReturn-append _ _
            (AllReturn-append _ _
              (AllReturn-append _ _
                (all_of-Returns complete n.all_of
                  (λ i m. below i complete (append_left _ (append_left _ (append_left _ m)))))
                (any_of-Returns complete n.any_of
                  (λ i m. below i true (append_left _ (append_left _ (append_right n.all_of m))))))
              (one_of-Returns complete n.one_of
                (λ i m. below i true (append_left _ (append_right (n.all_of ++ n.any_of) m)))))
            (not-Returns complete n.not_node
              (λ i m. below i true (append_right (n.all_of ++ n.any_of ++ n.one_of) m)))))

-- A text, whole or in flight.
abbrev pub IsText : Value → Type 0
IsText (string s) = Unit
IsText (partial_string s) = Unit
IsText _ = ⊥

module _ {F D : Type 0} (rec : Rec) (n : Node F D) (complete : Bool) where
  array-Returns : (value : Value) → IsText value → Returns (check_array rec n value complete)
  unfolding check_array
  array-Returns (string s) t = (_, refl)
  array-Returns (partial_string s) t = (_, refl)
  array-Returns _ t = absurd t

  object-Returns : (value : Value) → IsText value → Returns (check_object rec n value complete)
  unfolding check_object
  object-Returns (string s) t = (_, refl)
  object-Returns (partial_string s) t = (_, refl)
  object-Returns _ t = absurd t

-- The references of each node are nodes, and the rank falls along those that are judged in place.
abbrev pub IsRanked : {F D : Type 0} → List (Node F D) → (NodeId → ℕ) → Type 0
IsRanked {F} {D} nodes rank =
    (id : NodeId) (n : Node F D)
    → get_elem? nodes id ≡ some n
    → (child : NodeId) → Memᴰ child (in_place n)
    → Returns (get_elem? nodes child) × (rank child < rank id)

module _ {F D S : Type 0} (floats : Floats F) (ops : Dfa D S) (profile : NumberProfile)
    (nodes : List (Node F D)) (rank : NodeId → ℕ) (ranked : IsRanked nodes rank) where
  node-Returns :
      (rec : Rec) (n : Node F D) (value : Value) (complete : Bool)
      → IsText value
      → ((id : NodeId) (c : Bool) → Memᴰ id (in_place n) → Returns (rec id value c))
      → (b : Option Bool) → n.boolean ≡ b
      → Returns (judge_node floats ops profile nodes rec (some n) value complete)
  node-Returns rec n value complete t below (some true) e = rw e (_, refl)
  node-Returns rec n value complete t below (some false) e = rw e (_, refl)
  node-Returns rec n value complete t below none e =
      let (vs, es) =
        collect-Returns
          (check_array rec n value complete
            ∷ check_object rec n value complete
            ∷ check_combinators rec n value complete
            ∷ [])
          (
            array-Returns rec n complete value t,
            (
              object-Returns rec n complete value t,
              (combinators-Returns rec value n below complete, tt),
            ),
          ) in
      rw (e, es) (_, refl)

  -- A text, whole or in flight, is judged with a verdict when there is more fuel than the rank of the
  -- node. The references of each node are nodes, and the rank falls from a node to each of its
  -- combinators' branches.
  pub judge-Returns :
      (fuel : ℕ) (id : NodeId) (value : Value) (complete : Bool)
      → IsText value
      → Returns (get_elem? nodes id)
      → rank id < fuel
      → Returns (judge floats ops profile nodes fuel id value complete)
  unfolding judge
  judge-Returns zero id value complete t h l = absurd (omega arith)
  judge-Returns (suc fuel) id value complete t (n, e) l = rw e (
      node-Returns (judge floats ops profile nodes fuel) n value complete t
        (λ child c m.
          let (h, k) = ranked id n e child m in judge-Returns fuel child value c t h (omega arith))
        n.boolean refl)
