-- ===== src/Validate/Early/Compiled.antt =====
-- A schema that was compiled, and early rejection by it.
use mathlib.Core.List.{Memᴰ}
use mathlib.Core.List.Memᴰ.{cases_cons}
use mathlib.Core.Path.{subst}
use mathlib.Core.Option.{some-injective}
use jawohl.Prelude.{
  ℕ, zero, suc, ◌<◌, ◌≡◌, inl, inr, refl, sym, List, [], ◌∷◌, ◌++◌, Option, none, some, true, false,
  Bool, arith, length, Bytes, get_elem?,
}
use jawohl.Value.{string, partial_string}
use jawohl.Event.{Validation, irrecoverably_invalid}
use jawohl.Schema.Pattern.{Dfa}
use jawohl.Schema.Node.{NodeId, Node}
use jawohl.Schema.Report.{Schema}
use jawohl.Schema.Compile.Entry.{Compiled, compile}
use jawohl.Schema.Compile.Arena.{IdsIn, IdsIn-append, OptionIn, NodeIn, NodesIn}
use jawohl.Schema.Compile.Arena.Nodes.{compile-IsClosed}
use jawohl.Validate.Verdict.{is_failure}
use jawohl.Validate.Numbers.{Floats, NumberProfile}
use jawohl.Validate.Judge.{judge}
use jawohl.Validate.Returns.{Returns, IsRanked, in_place}
use jawohl.Validate.Early.Strings.{EndsDead, IsUndecided}
use jawohl.Validate.Early.Judged.{IsLawful}
use jawohl.Validate.Early.Certain.{judge-fails}

-- Each pattern that may reject early is anchored, and has no match in the text in flight.
abbrev pub AllUndecided :
    {F D S : Type 0} → Dfa D S → (D → Bytes → Bool) → Bytes → List (Node F D) → Type 0
AllUndecided ops anchored s [] = Unit
AllUndecided ops anchored s (n ∷ ns) =
    IsUndecided ops anchored s n.pattern × AllUndecided ops anchored s ns

-- The rank falls from each node to those that are judged on the same value.
abbrev pub Falls : {F D : Type 0} → List (Node F D) → (NodeId → ℕ) → Type 0
Falls {F} {D} nodes rank =
    (id : NodeId) (n : Node F D)
    → get_elem? nodes id ≡ some n
    → (child : NodeId) → Memᴰ child (in_place n)
    → rank child < rank id

get_elem-Returns : {A : Type 0} (xs : List A) (i : ℕ) → i < length xs → Returns (get_elem? xs i)
unfolding get_elem?
get_elem-Returns [] i l = absurd (omega arith)
get_elem-Returns (x ∷ xs) zero l = (x, refl)
get_elem-Returns (x ∷ xs) (suc i) l = get_elem-Returns xs i (omega arith)

IdsIn-Mem : (k : ℕ) (ids : List NodeId) (id : NodeId) → IdsIn k ids → Memᴰ id ids → id < k
IdsIn-Mem k (x ∷ ids) id h m = elim (cases_cons m) [
  | inl e ↦ subst (λ j. j < k) (sym e) h.0
  | inr deeper ↦ IdsIn-Mem k ids id h.1 deeper
]
IdsIn-Mem k [] id h m = elim m [ ]

IdsIn-option :
    (k : ℕ) (o : Option NodeId) → OptionIn k o → IdsIn k (elim o [ none ↦ [] | some id ↦ id ∷ [] ])
IdsIn-option k none h = tt
IdsIn-option k (some id) h = (h, tt)

module _ {F D S : Type 0} (ops : Dfa D S) (k : ℕ) where
  NodesIn-IsLawful :
      (anchored : D → Bytes → Bool) (s : Bytes) (ns : List (Node F D))
      → NodesIn k ns
      → AllUndecided ops anchored s ns
      → IsLawful ops anchored s ns
  NodesIn-IsLawful anchored s [] h u = tt
  NodesIn-IsLawful anchored s (n ∷ ns) h u =
      ((h.0.enumeration, u.0), NodesIn-IsLawful anchored s ns h.1 u.1)

  NodesIn-at :
      (ns : List (Node F D)) (i : ℕ) (n : Node F D)
      → NodesIn k ns
      → get_elem? ns i ≡ some n
      → NodeIn k n
  unfolding get_elem?
  NodesIn-at [] i n h e = cc
  NodesIn-at (m ∷ ns) zero n h e = subst (NodeIn k) (some-injective m n e) h.0
  NodesIn-at (m ∷ ns) (suc i) n h e = NodesIn-at ns i n h.1 e

  in_place-IdsIn : (n : Node F D) → NodeIn k n → IdsIn k (in_place n)
  in_place-IdsIn n h =
      IdsIn-append k (n.all_of ++ n.any_of ++ n.one_of) _
        (IdsIn-append k (n.all_of ++ n.any_of) n.one_of
          (IdsIn-append k n.all_of n.any_of h.all_of h.any_of) h.one_of)
        (IdsIn-option k n.not_node h.not_node)

NodesIn-IsRanked :
    {F D S : Type 0} (ops : Dfa D S) (nodes : List (Node F D)) (rank : NodeId → ℕ)
    → NodesIn (length nodes) nodes
    → Falls nodes rank
    → IsRanked nodes rank
NodesIn-IsRanked ops nodes rank h falls id n e child m = (
  get_elem-Returns nodes child (
      IdsIn-Mem (length nodes) (in_place n) child
        (in_place-IdsIn ops (length nodes) n (NodesIn-at ops (length nodes) nodes id n h e)) m),
  falls id n e child m,
)

-- A string in flight that a compiled schema judges irrecoverably invalid fails however it ends: its
-- whole text is judged, and the verdict is a failure. Each pattern of the schema that may reject early
-- matches at the start of a text or nowhere, and has no match in the text in flight; an anchored search
-- is over at a dead state; a rank of the nodes falls along their combinators, and there is more fuel
-- than the rank of the root.
pub compiled_rejects :
    {F D S : Type 0} (floats : Floats F) (ops : Dfa D S) (anchored : D → Bytes → Bool)
    → EndsDead ops anchored
    → (profile : NumberProfile) (compile_fuel : ℕ) (document : Bytes) (schema : Schema F D)
      (rank : NodeId → ℕ) (s rest : Bytes)
    → compile floats ops compile_fuel document ≡ Compiled.ok schema
    → AllUndecided ops anchored s schema.nodes
    → Falls schema.nodes rank
    → (fuel : ℕ) → rank schema.root < fuel
    → judge floats ops profile schema.nodes fuel schema.root (partial_string s) false
      ≡ some irrecoverably_invalid
    → (verdict : Validation) × (judge floats ops profile schema.nodes fuel schema.root
          (string (s ++ rest))
          true
        ≡ some verdict)
      × (is_failure verdict ≡ true)
compiled_rejects floats ops anchored law profile compile_fuel document schema rank s rest compiled
      undecided falls fuel enough early =
    let (inside, nodes) = compile-IsClosed floats ops compile_fuel document schema compiled in
    judge-fails floats ops anchored law profile schema.nodes rank s rest
      (NodesIn-IsLawful ops (length schema.nodes) anchored s schema.nodes nodes undecided)
      (NodesIn-IsRanked ops schema.nodes rank nodes falls) fuel schema.root
      (get_elem-Returns schema.nodes schema.root inside) enough early
