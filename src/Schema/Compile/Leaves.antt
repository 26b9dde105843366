-- ===== src/Schema/Compile/Leaves.antt =====
-- src/schema/compile.rs: the keywords with no schema below them.
use jawohl.Prelude.{
  ℕ, Bool, true, false, not, List, [], ◌∷◌, Option, none, some, if◌then◌else◌, Bytes, codes,
}
use jawohl.Pointer.{parse_usize}
use jawohl.Value.{Value, Values, nil, cons}
use jawohl.Schema.Trie
use jawohl.Schema.Pattern.{Dfa, Pattern}
use jawohl.Schema.Pattern as Patterns
use jawohl.Schema.Node.{TypeSet, no_type, union, is_empty, from_name, Node}
use jawohl.Schema.Report.{
  unknown_type, expected_type_names, expected_number, expected_natural, not_representable,
  unanchored, bad_regex,
}
use jawohl.Schema.Compile.State.{Compiler, count, note}
use jawohl.Validate.Numbers.{Floats}

-- A node, and the compiler after it was changed.
abbrev pub Changed : Type 0 → Type 0 → Type 0
Changed F D = Node F D × Compiler F D

module _ {F D : Type 0} where
  abbrev pub add_type :
      Bytes → Bytes → Option TypeSet → TypeSet × Compiler F D → TypeSet × Compiler F D
  add_type loc name (some t) (types, c) = (union types t, c)
  add_type loc name none (types, c) = (types, note loc (codes "type") (unknown_type name) c)

  unfoldable pub add_types : Bytes → Values → TypeSet × Compiler F D → TypeSet × Compiler F D
  unfolding from_name union
  add_types loc nil tc = tc
  add_types loc (cons (Value.string s) vs) tc = add_types loc vs (add_type loc s (from_name s) tc)
  add_types loc (cons _ vs) tc = add_types loc vs tc

  unfoldable pub type_set : Bytes → Value → Compiler F D → TypeSet × Compiler F D
  unfolding add_types
  type_set loc (Value.string s) c = add_type loc s (from_name s) (no_type, c)
  type_set loc (Value.array items) c = add_types loc items (no_type, c)
  type_set loc _ c = (no_type, note loc (codes "type") expected_type_names c)

  abbrev pub with_types : Node F D → TypeSet × Compiler F D → Changed F D
  with_types n (types, c) =
      if not (is_empty types) then (record n { types = some types }, count c) else (n, c)

  unfoldable pub set_types : Bytes → Value → Node F D → Compiler F D → Changed F D
  unfolding type_set
  set_types loc v n c = with_types n (type_set loc v c)

  abbrev pub counted_u64 : Bytes → Bytes → Option ℕ → Compiler F D → Option ℕ × Compiler F D
  counted_u64 loc key (some x) c = (some x, count c)
  counted_u64 loc key none c = (none, note loc key expected_natural c)

  -- `parse::<u64>` reads what `parse::<usize>` reads on 64 bits.
  unfoldable pub u64_at : Value → Bytes → Bytes → Compiler F D → Option ℕ × Compiler F D
  u64_at (Value.number num) loc key c = counted_u64 loc key (parse_usize num.text) c
  u64_at _ loc key c = (none, note loc key expected_number c)

  abbrev pub counted_f64 : Bytes → Bytes → Option F → Compiler F D → Option F × Compiler F D
  counted_f64 loc key (some x) c = (some x, count c)
  counted_f64 loc key none c = (none, note loc key not_representable c)

  unfoldable pub f64_at : Floats F → Value → Bytes → Bytes → Compiler F D → Option F × Compiler F D
  f64_at floats (Value.number num) loc key c = counted_f64 loc key (floats.parse num.text) c
  f64_at floats _ loc key c = (none, note loc key expected_number c)

  unfoldable pub set_unique : Value → Node F D → Compiler F D → Changed F D
  set_unique (Value.bool b) n c = (record n { unique_items = b }, count c)
  set_unique _ n c = (n, c)

  abbrev pub note_unanchored : Bytes → Pattern D → Compiler F D → Compiler F D
  note_unanchored loc p c =
      if not p.supports_early_rejection then note loc (codes "pattern") unanchored c else c

  abbrev pub with_pattern : Bytes → Option (Pattern D) → Node F D → Compiler F D → Changed F D
  with_pattern loc none n c = (n, note loc (codes "pattern") bad_regex c)
  with_pattern loc (some p) n c = (record n { pattern = some p }, count (note_unanchored loc p c))

  unfoldable pub set_pattern :
      {S : Type 0} → Dfa D S → Bytes → Value → Node F D → Compiler F D → Changed F D
  set_pattern ops loc (Value.string p) n c = with_pattern loc (Patterns.compile ops p) n c
  set_pattern ops loc _ n c = (n, c)

-- The string members of a list, in order.
unfoldable pub string_items : Values → List Bytes
string_items nil = []
string_items (cons (Value.string s) vs) = s ∷ string_items vs
string_items (cons _ vs) = string_items vs

unfoldable pub has_other : Values → Bool
has_other nil = false
has_other (cons (Value.string s) vs) = has_other vs
has_other (cons _ vs) = true

module _ {F D : Type 0} where
  unfoldable pub set_enum : Value → Node F D → Compiler F D → Changed F D
  set_enum (Value.array items) n c =
      (record n { enumeration = some (Trie.new (string_items items) (has_other items)) }, count c)
  set_enum _ n c = (n, c)

  unfoldable pub set_required : Value → Node F D → Compiler F D → Changed F D
  set_required (Value.array items) n c = (record n { required = string_items items }, count c)
  set_required _ n c = (n, c)
