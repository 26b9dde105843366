-- ===== src/Validate/Early/Strings.antt =====
-- The checks of a string, of a prefix and of the whole text.
use mathlib.Core.Path.{subst}
use jawohl.Prelude.{
  ℕ, ◌+◌, ◌∙◌, Bool, Bool-cases, Option-cases, true, false, List, [], ◌∷◌, ◌++◌, Option, none, some,
  ◌≡◌, inl, inr, refl, sym, ap, arith, Bytes, bytes_eq, bytes_eq_iff, starts_with, ltb, leb,
}
use jawohl.Value.{Value, string, partial_string}
use jawohl.Event.{Validation}
use jawohl.Schema.Trie.{EnumTrie, new, contains}
use jawohl.Schema.Trie as Trie
use jawohl.Schema.Trie.Live.{queries_iff}
use jawohl.Schema.Pattern.{Dfa, Pattern, stays_live, matches, live_from}
use jawohl.Schema.Pattern as Patterns
use jawohl.Schema.Node.{Node}
use jawohl.Validate.Verdict.{fold_from, fold, is_failure, is_irrecoverable, at_least}
use jawohl.Validate.Scalars.{
  char_count, check_enum, value_eq, check_const, option_part, over, check_enum_and_const,
  check_pattern, check_string,
}
use jawohl.Validate.Early.Rejects.{Rejects, Rejects-append, Rejects-one, Rejects-none}

starts-append : (s rest : Bytes) → starts_with s (s ++ rest) ≡ true
unfolding starts_with
starts-append [] rest = refl
starts-append (b ∷ s) rest = ground (arith, starts-append s rest)

char_count-append : (s rest : Bytes) → char_count (s ++ rest) ≡ char_count s + char_count rest
unfolding char_count
char_count-append [] rest = omega arith
char_count-append (b ∷ s) rest = ground (arith, char_count-append s rest)

-- The trie was built of some members.
abbrev pub IsBuilt : Option EnumTrie → Type 0
IsBuilt none = Unit
IsBuilt (some t) = (members : List Bytes) × (flag : Bool) × (t ≡ new members flag)

dead_text :
    (members : List Bytes) (flag : Bool) (s rest : Bytes)
    → Trie.prefix_is_live (new members flag) s ≡ false
    → contains (new members flag) (s ++ rest) ≡ false
dead_text members flag s rest dead = elim (Bool-cases (contains (new members flag) (s ++ rest))) [
  | inr e ↦ e
  | inl e ↦
      let member = (queries_iff members flag (s ++ rest)).1.0 e in
      let alive = (queries_iff members flag s).0.1 (s ++ rest, member, starts-append s rest) in
      absurd (ground arith)
]

check_enum-Rejects :
    (t : EnumTrie) (s rest : Bytes)
    → IsBuilt (some t)
    → Rejects (check_enum t (partial_string s) false) (check_enum t (string (s ++ rest)) true)
unfolding check_enum is_irrecoverable is_failure
check_enum-Rejects t s rest (members, flag, e) h = ground (
  arith,
  subst (λ u. Trie.prefix_is_live u s ≡ false → contains u (s ++ rest) ≡ false) (sym e)
      (dead_text members flag s rest),
)

check_const-Rejects :
    (want : Value) (s rest : Bytes)
    → Rejects
        (check_const want (partial_string s) false)
        (check_const want (string (s ++ rest)) true)
unfolding check_const value_eq is_irrecoverable is_failure
check_const-Rejects (string w) s rest h = elim (Bool-cases (bytes_eq w (s ++ rest))) [
  | inr e ↦ rw e refl
  | inl e ↦
      let begins : starts_with s w ≡ true =
        subst (λ t. starts_with s t ≡ true) (sym ((bytes_eq_iff w (s ++ rest)).0 e))
          (starts-append s rest) in
      absurd (ground arith)
]
check_const-Rejects _ s rest h = cc

module _ {D S : Type 0} (ops : Dfa D S) where
  -- A search that is anchored at the start of the text is over at a dead state, with what it has
  -- found by then: no text that goes on has it find more, or less.
  abbrev pub EndsDead : (D → Bytes → Bool) → Type 0
  EndsDead anchored =
      (d : D) (s rest : Bytes) (state : S)
      → ops.start_state_forward d s ≡ some state
      → stays_live ops d state s ≡ false
      → anchored d (s ++ rest) ≡ anchored d s

  -- The pattern matches at the start of a text or not at all, as one does whose every branch begins
  -- with `^`: the search of the whole text finds what the anchored one does.
  abbrev pub IsAnchored : (D → Bytes → Bool) → Pattern D → Type 0
  IsAnchored anchored p = (text : Bytes) → matches ops p text ≡ anchored p.dfa text

  -- A pattern that may reject early is anchored, and has no match in the text in flight.
  abbrev pub IsUndecided : (D → Bytes → Bool) → Bytes → Option (Pattern D) → Type 0
  IsUndecided anchored s none = Unit
  IsUndecided anchored s (some p) =
      p.supports_early_rejection ≡ true → IsAnchored anchored p × (matches ops p s ≡ false)

module _ {D S : Type 0} (ops : Dfa D S) (anchored : D → Bytes → Bool)
    (law : EndsDead ops anchored) where
  no_match :
      (p : Pattern D) (s rest : Bytes) (state : S)
      → IsUndecided ops anchored s (some p)
      → p.supports_early_rejection ≡ true
      → ops.start_state_forward p.dfa s ≡ some state
      → stays_live ops p.dfa state s ≡ false
      → matches ops p (s ++ rest) ≡ false
  no_match p s rest state undecided early start dead =
      let (same, unmatched) = undecided early in
      same (s ++ rest) ∙ law p.dfa s rest state start dead ∙ sym (same s) ∙ unmatched

  check_pattern-Rejects :
      (p : Pattern D) (s rest : Bytes)
      → IsUndecided ops anchored s (some p)
      → Rejects (check_pattern ops p s false) (check_pattern ops p (s ++ rest) true)
  unfolding Patterns.prefix_is_live is_irrecoverable is_failure
  check_pattern-Rejects p s rest undecided h =
      elim (Option-cases (ops.start_state_forward p.dfa s)) [
        | inl e ↦ absurd (ground (arith, ap (λ o. live_from ops p.dfa o s) e))
        | inr (state, e) ↦
            ground (arith, no_match p s rest state undecided, ap (λ o. live_from ops p.dfa o s) e)
      ]

  max_part-Rejects :
      (max : Option ℕ) (s rest : Bytes)
      → Rejects
          (fold (option_part max (λ m. over (ltb m (char_count s)))))
          (fold (option_part max (λ m. over (ltb m (char_count (s ++ rest))))))
  unfolding fold fold_from is_irrecoverable is_failure
  max_part-Rejects none s rest h = cc
  max_part-Rejects (some m) s rest h = ground (arith, char_count-append s rest)

  min_part-Rejects :
      (min : Option ℕ) (s : Bytes) (parts : List Validation)
      → Rejects
          (fold (option_part min (λ m. at_least (leb m (char_count s)) false ∷ [])))
          (fold parts)
  unfolding fold fold_from is_irrecoverable
  min_part-Rejects none s parts h = cc
  min_part-Rejects (some m) s parts h = absurd (ground arith)

  pattern_part-Rejects :
      (p : Option (Pattern D)) (s rest : Bytes)
      → IsUndecided ops anchored s p
      → Rejects
          (fold (option_part p (λ q. check_pattern ops q s false ∷ [])))
          (fold (option_part p (λ q. check_pattern ops q (s ++ rest) true ∷ [])))
  pattern_part-Rejects none s rest undecided = Rejects-none []
  pattern_part-Rejects (some p) s rest undecided =
      Rejects-one _ _ (check_pattern-Rejects p s rest undecided)

  module _ {F : Type 0} (n : Node F D) (s rest : Bytes) where
    pub check_string-Rejects :
        IsUndecided ops anchored s n.pattern
        → Rejects
            (check_string ops n (partial_string s) false)
            (check_string ops n (string (s ++ rest)) true)
    unfolding check_string
    check_string-Rejects undecided =
        let max = max_part-Rejects n.max_length s rest in
        let min =
          min_part-Rejects n.min_length s
            (option_part n.min_length (λ m. at_least (leb m (char_count (s ++ rest))) true ∷ [])) in
        Rejects-append _ _ _ _ (Rejects-append _ _ _ _ max min)
          (pattern_part-Rejects n.pattern s rest undecided)

module _ {F D : Type 0} (n : Node F D) (s rest : Bytes) where
  enum_part-Rejects :
      (t : Option EnumTrie)
      → IsBuilt t
      → Rejects
          (fold (option_part t (λ u. check_enum u (partial_string s) false ∷ [])))
          (fold (option_part t (λ u. check_enum u (string (s ++ rest)) true ∷ [])))
  enum_part-Rejects none built = Rejects-none []
  enum_part-Rejects (some t) built = Rejects-one _ _ (check_enum-Rejects t s rest built)

  const_part-Rejects :
      (c : Option Value)
      → Rejects
          (fold (option_part c (λ u. check_const u (partial_string s) false ∷ [])))
          (fold (option_part c (λ u. check_const u (string (s ++ rest)) true ∷ [])))
  const_part-Rejects none = Rejects-none []
  const_part-Rejects (some c) = Rejects-one _ _ (check_const-Rejects c s rest)

  pub check_enum_and_const-Rejects :
      IsBuilt n.enumeration
      → Rejects
          (check_enum_and_const n (partial_string s) false)
          (check_enum_and_const n (string (s ++ rest)) true)
  unfolding check_enum_and_const
  check_enum_and_const-Rejects built =
      Rejects-append (option_part n.enumeration (λ t. check_enum t (partial_string s) false ∷ []))
        (option_part n.enumeration (λ t. check_enum t (string (s ++ rest)) true ∷ [])) _ _
        (enum_part-Rejects n.enumeration built) (const_part-Rejects n.const_value)
