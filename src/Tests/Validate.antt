-- ===== src/Tests/Validate.antt =====
-- The validator's theorems at inputs that meet their hypotheses.
use jawohl.Prelude.{
  ℕ, zero, suc, ltb, leb, ◌+◌, ◌==◌, if◌then◌else◌, true, false, List, [], ◌∷◌, some, none, ◌≡◌,
  ◌≢◌, ◌↔◌, Bool, refl, sym, ◌<◌, arith, Bytes, codes, starts_with, get_elem?,
}
use mathlib.Core.List.{Memᴰ}
use mathlib.Core.Path.{subst}
use jawohl.Value.{string, partial_string, null}
use jawohl.Event.{Validation, pending, valid_so_far, invalid, irrecoverably_invalid}
use jawohl.Schema.Trie.{new, prefix_is_live, contains}
use jawohl.Schema.Trie.Live.{queries_iff}
use jawohl.Schema.Pattern.{Dfa, Pattern, stays_live, matches}
use jawohl.Schema.Pattern as Patterns
use jawohl.Schema.Node.{NodeId, Node, permissive}
use jawohl.Validate.Verdict.{fold, is_failure}
use jawohl.Validate.Verdict.Worst.{severity, gravest, fold-worst}
use jawohl.Validate.Numbers.{Floats, NumberProfile, check_type, check_number}
use jawohl.Validate.Scalars.{char_count, check_enum_and_const, check_string}
use jawohl.Validate.Judge.{judge}
use jawohl.Validate.Cycle.{judge-self_reference}
use jawohl.Validate.Early.Strings.{EndsDead, IsAnchored, IsUndecided}
use jawohl.Validate.Early.Judged.{IsLawful}
use jawohl.Validate.Early.Certain.{judge-fails}
use jawohl.Validate.Returns.{Returns, IsRanked, in_place, judge-Returns}

queries_iff_example :
    ((prefix_is_live (new (codes "user" ∷ codes "admin" ∷ []) false) (codes "ad") ≡ true) ↔ (
      (m : Bytes) × Memᴰ m (codes "user" ∷ codes "admin" ∷ [])
      × (starts_with (codes "ad") m ≡ true)))
    × ((contains (new (codes "user" ∷ codes "admin" ∷ []) false) (codes "ad") ≡ true)
        ↔ Memᴰ (codes "ad") (codes "user" ∷ codes "admin" ∷ []))
queries_iff_example = queries_iff (codes "user" ∷ codes "admin" ∷ []) false (codes "ad")

abbrev some_parts : List Validation
some_parts = valid_so_far ∷ invalid ∷ pending ∷ []

fold-worst_example :
    (severity (fold some_parts) ≡ gravest some_parts) × (fold some_parts ≢ Validation.valid)
fold-worst_example = fold-worst some_parts

-- Numbers for the bounds.
abbrev pub naturals : Floats ℕ
naturals = record {
  parse = λ text. none;
  less = ltb;
  less_or_equal = leb;
  is_integral = λ f. true;
  is_multiple = λ v m. v == m;
  add = λ a b. a + b;
  neg = λ a. a;
  infinity = 1000;
  ten_to_minus = λ places. 1;
}

-- The automaton of `^a`: 0 is its first state, 3 has read the letter, 1 tells of the match, one byte
-- late, and 2 is dead, as it is after the match.
abbrev pub begins_a : Dfa Unit ℕ
begins_a = record {
  compiled = λ source. some tt;
  start_state_forward = λ d text. some 0;
  next_state =
      λ d state b. if state == 0 then (if b == 97 then 3 else 2) else if state == 3 then 1 else 2;
  is_dead_state = λ d state. state == 2;
  search_fwd = λ d text. starts_with (codes "a") text;
}

-- The search for `^a` that is anchored.
abbrev pub at_start : {D : Type 0} → D → Bytes → Bool
at_start d text = starts_with (codes "a") text

abbrev pub begins : Pattern Unit
begins = record { source = codes "^a"; dfa = tt; supports_early_rejection = true }

pub begins-EndsDead : EndsDead begins_a at_start
unfolding stays_live starts_with
begins-EndsDead d [] rest state start dead = cc
begins-EndsDead d (b ∷ s) rest state start dead = refl

begins-IsAnchored : IsAnchored begins_a at_start begins
unfolding matches
begins-IsAnchored text = refl

pub begins-IsUndecided : IsUndecided begins_a at_start (codes "x") (some begins)
unfolding matches starts_with
begins-IsUndecided early = (begins-IsAnchored, refl)

-- `{"allOf": [{"pattern": "^a", "maxLength": 3}, {"enum": ["ab", "abc"]}]}`
abbrev nodes : List (Node ℕ Unit)
nodes =
    record permissive { all_of = 1 ∷ 2 ∷ [] }
    ∷ record permissive { pattern = some begins; max_length = some 3 }
    ∷ record permissive { enumeration = some (new (codes "ab" ∷ codes "abc" ∷ []) false) }
    ∷ []

nodes-IsLawful : IsLawful begins_a at_start (codes "x") nodes
nodes-IsLawful =
    ((tt, tt), ((tt, begins-IsUndecided), (((codes "ab" ∷ codes "abc" ∷ [], false, refl), tt), tt)))

prefix_rejected :
    judge naturals begins_a NumberProfile.exact nodes 2 0 (partial_string (codes "x")) false
    ≡ some irrecoverably_invalid
unfolding judge get_elem? fold check_type check_enum_and_const check_string check_number char_count
    Patterns.prefix_is_live
prefix_rejected = refl

-- The first node combines the others.
abbrev rank : NodeId → ℕ
rank zero = 1
rank (suc i) = 0

branches :
    (child : NodeId) → Memᴰ child (1 ∷ 2 ∷ []) → Returns (get_elem? nodes child) × (rank child < 1)
unfolding get_elem?
branches child (Memᴰ.head e) =
    subst (λ i. Returns (get_elem? nodes i) × (rank i < 1)) (sym e) ((_, refl), omega arith)
branches child (Memᴰ.tail (Memᴰ.head e)) =
    subst (λ i. Returns (get_elem? nodes i) × (rank i < 1)) (sym e) ((_, refl), omega arith)
branches child (Memᴰ.tail (Memᴰ.tail m)) = elim m [ ]

node_inj : {m n : Node ℕ Unit} → some m ≡ some n → m ≡ n
node_inj e = cc

in_place_of :
    (m n : Node ℕ Unit) {child : NodeId}
    → some m ≡ some n
    → Memᴰ child (in_place n)
    → Memᴰ child (in_place m)
in_place_of m n {child} e h = subst (λ x. Memᴰ child (in_place x)) (sym (node_inj e)) h

no_branch : {child : NodeId} → Memᴰ child [] → ⊥
no_branch m = elim m [ ]

nodes-IsRanked : IsRanked nodes rank
unfolding get_elem?
nodes-IsRanked zero n e child m = branches child (in_place_of _ n e m)
nodes-IsRanked (suc zero) n e child m = absurd (no_branch (in_place_of _ n e m))
nodes-IsRanked (suc (suc zero)) n e child m = absurd (no_branch (in_place_of _ n e m))
nodes-IsRanked (suc (suc (suc i))) n e child m = cc

first-there : Returns (get_elem? nodes 0)
unfolding get_elem?
first-there = (_, refl)

judge-fails_example :
    (verdict : Validation) × (judge naturals begins_a NumberProfile.exact nodes 2 0
        (string (codes "xy"))
        true
      ≡ some verdict)
    × (is_failure verdict ≡ true)
judge-fails_example =
    judge-fails naturals begins_a at_start begins-EndsDead NumberProfile.exact nodes rank
      (codes "x") (codes "y") nodes-IsLawful nodes-IsRanked 2 0 first-there (omega arith)
      prefix_rejected

judge-Returns_example :
    Returns (judge naturals begins_a NumberProfile.exact nodes 2 0 (string (codes "abc")) true)
judge-Returns_example =
    judge-Returns naturals begins_a NumberProfile.exact nodes rank nodes-IsRanked 2 0
      (string (codes "abc")) true tt first-there (omega arith)

-- `{"allOf": [{"$ref": "#"}]}`
abbrev cyclic : List (Node ℕ Unit)
cyclic = record permissive { all_of = 0 ∷ [] } ∷ []

cyclic-found : get_elem? cyclic 0 ≡ some (record permissive { all_of = 0 ∷ [] })
unfolding get_elem?
cyclic-found = refl

judge-self_reference_example :
    judge naturals begins_a NumberProfile.exact cyclic 1000 0 null true ≡ none
judge-self_reference_example =
    judge-self_reference naturals begins_a NumberProfile.exact cyclic 0
      (record permissive { all_of = 0 ∷ [] }) cyclic-found refl (Memᴰ.head refl) 1000 null true
