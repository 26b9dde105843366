-- ===== src/Validate/Scalars.antt =====
-- src/validate.rs: the checks of strings, numbers, `enum` and `const`.
use jawohl.Prelude.{
  ℕ, suc, Bool, true, false, not, ◌&&◌, List, [], ◌∷◌, ◌++◌, Option, none, some, if◌then◌else◌, ltb,
  leb, Bytes, bytes_eq, starts_with,
}
use jawohl.Value.{
  Value, Values, Members, null, bool, number, string, array, object, partial_string, partial_number,
  partial_literal, nil, cons, end, member,
}
use jawohl.Event.{Validation, pending, valid_so_far, invalid, irrecoverably_invalid}
use jawohl.Schema.Trie.{EnumTrie, contains}
use jawohl.Schema.Trie
use jawohl.Schema.Pattern.{Dfa, Pattern, matches}
use jawohl.Schema.Pattern
use jawohl.Schema.Node.{Node}
use jawohl.Validate.Verdict.{fold, ok_or_invalid, at_least}

-- `text.chars().count()` of well-formed UTF-8: the bytes that continue no character.
unfoldable pub char_count : Bytes → ℕ
char_count [] = 0
char_count (b ∷ bs) =
    let rest = char_count bs in if leb 0x80 b && ltb b 0xC0 then rest else suc rest

unfoldable pub check_enum : EnumTrie → Value → Bool → Validation
check_enum t (string s) complete =
    if contains t s then valid_so_far else if complete then invalid else irrecoverably_invalid
check_enum t (partial_string s) complete =
    if Trie.prefix_is_live t s then pending else irrecoverably_invalid
check_enum t _ complete = if not t.has_non_strings then irrecoverably_invalid else pending

unfoldable mutual
  -- The derived equality.
  pub value_eq : Value → Value → Bool
  value_eq null null = true
  value_eq (bool a) (bool b) = if a then b else not b
  value_eq (number m) (number n) = bytes_eq m.text n.text
  value_eq (string s) (string t) = bytes_eq s t
  value_eq (array xs) (array ys) = values_eq xs ys
  value_eq (object ms) (object ns) = members_eq ms ns
  value_eq (partial_string s) (partial_string t) = bytes_eq s t
  value_eq (partial_number s) (partial_number t) = bytes_eq s t
  value_eq (partial_literal s) (partial_literal t) = bytes_eq s t
  value_eq _ _ = false

  pub values_eq : Values → Values → Bool
  values_eq nil nil = true
  values_eq (cons x xs) (cons y ys) = value_eq x y && values_eq xs ys
  values_eq _ _ = false

  pub members_eq : Members → Members → Bool
  members_eq end end = true
  members_eq (member j x ms) (member k y ns) = bytes_eq j k && (value_eq x y && members_eq ms ns)
  members_eq _ _ = false

unfoldable pub check_const : Value → Value → Bool → Validation
unfolding value_eq
check_const (string want) (partial_string got) complete =
    if starts_with got want then pending else irrecoverably_invalid
check_const want got complete = if complete then ok_or_invalid (value_eq want got) else pending

abbrev pub option_part {ℓ} : {A : Type ℓ} → Option A → (A → List Validation) → List Validation
option_part none part = []
option_part (some a) part = part a

abbrev pub over : Bool → List Validation
over exceeded = if exceeded then irrecoverably_invalid ∷ [] else []

module _ {F D : Type 0} where
  unfoldable pub check_enum_and_const : Node F D → Value → Bool → Validation
  check_enum_and_const n value complete = fold (
      option_part n.enumeration (λ t. check_enum t value complete ∷ [])
      ++ option_part n.const_value (λ c. check_const c value complete ∷ []))

module _ {D S : Type 0} (ops : Dfa D S) where
  abbrev pub check_pattern : Pattern D → Bytes → Bool → Validation
  check_pattern p text settled =
      if settled
      then ok_or_invalid (matches ops p text)
      else if Pattern.prefix_is_live ops p text
      then pending
      else irrecoverably_invalid

module _ {F D S : Type 0} (ops : Dfa D S) where
  abbrev pub check_text : Node F D → Bytes → Bool → Validation
  check_text n text settled =
      let chars = char_count text in
      fold (
        option_part n.max_length (λ max. over (ltb max chars))
        ++ option_part n.min_length (λ min. at_least (leb min chars) settled ∷ [])
        ++ option_part n.pattern (λ p. check_pattern ops p text settled ∷ []))

  unfoldable pub check_string : Node F D → Value → Bool → Validation
  check_string n (string s) complete = check_text n s complete
  check_string n (partial_string s) complete = check_text n s false
  check_string n _ complete = valid_so_far
