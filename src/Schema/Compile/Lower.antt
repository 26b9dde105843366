-- ===== src/Schema/Compile/Lower.antt =====
-- src/schema/compile.rs: `lower` and `resolve_ref`. The recursion follows references as well as the
-- document, so it runs on fuel.
use jawohl.Prelude.{
  ℕ, zero, suc, true, false, List, [], ◌∷◌, ◌++◌, Option, none, some, ◌==◌, if◌then◌else◌, Bytes,
  codes, lookup, insert,
}
use jawohl.Pointer.{decimal}
use jawohl.Value.{Value, Values, Members, nil, cons, end, member, find_member}
use jawohl.Schema.Pattern.{Dfa}
use jawohl.Schema.Node.{NodeId, AdditionalProperties, Node, permissive}
use jawohl.Schema.Report.{Reason, not_a_schema, unresolvable_ref}
use jawohl.Schema.Keyword.{Keyword, keyword_of}
use jawohl.Schema.Compile.State.{
  Compiler, Lowered, done, failed, spent, ◌>>=◌, count, note, next_id, alloc, begin_node, end_node,
  pointer_into,
}
use jawohl.Schema.Compile.Leaves.{
  Changed, set_types, u64_at, f64_at, set_unique, set_pattern, set_enum, set_required,
}
use jawohl.Validate.Numbers.{Floats}

-- `format!("{at}/{key}")`
abbrev pub below : Bytes → Bytes → Bytes
below at key = at ++ b'/' ∷ key

-- The recursive call.
abbrev pub Rec : Type 0 → Type 0 → Type 0
Rec F D = Value → Bytes → Compiler F D → Lowered F D NodeId

module _ {F D : Type 0} (rec : Rec F D) where
  -- The schemas of a list, from the `i`-th on.
  unfoldable pub lower_items : Bytes → ℕ → Values → Compiler F D → Lowered F D (List NodeId)
  lower_items loc i nil c = done [] c
  lower_items loc i (cons v vs) c = rec v (below loc (decimal i)) c >>= λ id d.
      lower_items loc (suc i) vs d >>= λ ids e. done (id ∷ ids) e

  unfoldable pub lower_properties :
      Bytes → Members → List (Bytes × NodeId) → Compiler F D → Lowered F D (List (Bytes × NodeId))
  lower_properties loc end props c = done props c
  lower_properties loc (member name v ms) props c =
      rec v (below loc name) c >>= λ id d. lower_properties loc ms (insert name id props) d

  unfoldable pub set_properties : Bytes → Value → Node F D → Compiler F D → Lowered F D (Node F D)
  set_properties loc (Value.object props) n c =
      lower_properties loc props n.properties c >>= λ ps d.
      done (record n { properties = ps }) (count d)
  set_properties loc _ n c = done n c

  unfoldable pub set_additional : Bytes → Value → Node F D → Compiler F D → Lowered F D (Node F D)
  set_additional loc (Value.bool true) n c =
      done (record n { additional_properties = AdditionalProperties.permitted }) (count c)
  set_additional loc (Value.bool false) n c =
      done (record n { additional_properties = AdditionalProperties.forbidden }) (count c)
  set_additional loc v n c = rec v loc c >>= λ id d.
      done (record n { additional_properties = AdditionalProperties.schema id }) (count d)

  -- A list of schemas, put into the node.
  unfoldable pub set_list :
      (List NodeId → Node F D) → Bytes → Value → Node F D → Compiler F D → Lowered F D (Node F D)
  set_list put loc (Value.array vs) n c =
      lower_items loc 0 vs c >>= λ ids d. done (put ids) (count d)
  set_list put loc _ n c = done n c

  unfoldable pub set_schema :
      (NodeId → Node F D) → Bytes → Value → Compiler F D → Lowered F D (Node F D)
  set_schema put loc v c = rec v loc c >>= λ id d. done (put id) (count d)

abbrev pub changed : {F D : Type 0} → Changed F D → Lowered F D (Node F D)
changed (n, c) = done n c

abbrev pub bounded :
    {F D B : Type 0} → (Option B → Node F D) → Option B × Compiler F D → Lowered F D (Node F D)
bounded put (x, c) = done (put x) c

module _ {F D S : Type 0} (floats : Floats F) (ops : Dfa D S) where
  -- One arm of the match on the keyword.
  unfoldable pub apply_keyword :
      Rec F D → Keyword → Bytes → Bytes → Value → Node F D → Compiler F D → Lowered F D (Node F D)
  apply_keyword rec Keyword.types key loc v n c = changed (set_types loc v n c)
  apply_keyword rec Keyword.min_length key loc v n c =
      bounded (λ x. record n { min_length = x }) (u64_at v loc key c)
  apply_keyword rec Keyword.max_length key loc v n c =
      bounded (λ x. record n { max_length = x }) (u64_at v loc key c)
  apply_keyword rec Keyword.min_items key loc v n c =
      bounded (λ x. record n { min_items = x }) (u64_at v loc key c)
  apply_keyword rec Keyword.max_items key loc v n c =
      bounded (λ x. record n { max_items = x }) (u64_at v loc key c)
  apply_keyword rec Keyword.min_properties key loc v n c =
      bounded (λ x. record n { min_properties = x }) (u64_at v loc key c)
  apply_keyword rec Keyword.max_properties key loc v n c =
      bounded (λ x. record n { max_properties = x }) (u64_at v loc key c)
  apply_keyword rec Keyword.minimum key loc v n c =
      bounded (λ x. record n { minimum = x }) (f64_at floats v loc key c)
  apply_keyword rec Keyword.maximum key loc v n c =
      bounded (λ x. record n { maximum = x }) (f64_at floats v loc key c)
  apply_keyword rec Keyword.exclusive_minimum key loc v n c =
      bounded (λ x. record n { exclusive_minimum = x }) (f64_at floats v loc key c)
  apply_keyword rec Keyword.exclusive_maximum key loc v n c =
      bounded (λ x. record n { exclusive_maximum = x }) (f64_at floats v loc key c)
  apply_keyword rec Keyword.multiple_of key loc v n c =
      bounded (λ x. record n { multiple_of = x }) (f64_at floats v loc key c)
  apply_keyword rec Keyword.unique_items key loc v n c = changed (set_unique v n c)
  apply_keyword rec Keyword.pattern key loc v n c = changed (set_pattern ops loc v n c)
  apply_keyword rec Keyword.enumeration key loc v n c = changed (set_enum v n c)
  apply_keyword rec Keyword.const_value key loc v n c =
      done (record n { const_value = some v }) (count c)
  apply_keyword rec Keyword.required key loc v n c = changed (set_required v n c)
  apply_keyword rec Keyword.properties key loc v n c = set_properties rec loc v n c
  apply_keyword rec Keyword.additional_properties key loc v n c = set_additional rec loc v n c
  apply_keyword rec Keyword.items key loc v n c =
      set_schema rec (λ id. record n { items = some id }) loc v c
  apply_keyword rec Keyword.prefix_items key loc v n c =
      set_list rec (λ ids. record n { prefix_items = n.prefix_items ++ ids }) loc v n c
  apply_keyword rec Keyword.all_of key loc v n c =
      set_list rec (λ ids. record n { all_of = ids }) loc v n c
  apply_keyword rec Keyword.any_of key loc v n c =
      set_list rec (λ ids. record n { any_of = ids }) loc v n c
  apply_keyword rec Keyword.one_of key loc v n c =
      set_list rec (λ ids. record n { one_of = ids }) loc v n c
  apply_keyword rec Keyword.not_schema key loc v n c =
      set_schema rec (λ id. record n { not_node = some id }) loc v c
  apply_keyword rec Keyword.definitions key loc v n c = done n c
  apply_keyword rec Keyword.annotation key loc v n c = done n c
  apply_keyword rec (Keyword.deferred why) key loc v n c = done n (note loc key why c)
  apply_keyword rec Keyword.unrecognised key loc v n c = done n (note loc key Reason.unrecognised c)

  -- The loop over the members.
  unfoldable pub lower_keys :
      Rec F D → Bytes → Members → Node F D → Compiler F D → Lowered F D (Node F D)
  lower_keys rec at end n c = done n c
  lower_keys rec at (member key v ms) n c =
      apply_keyword rec (keyword_of key) key (below at key) v n c >>= λ m d.
      lower_keys rec at ms m d

  unfoldable pub resolve_target :
      Rec F D → Bytes → Bytes → Option Value → Compiler F D → Lowered F D NodeId
  resolve_target rec target pointer none c = failed (unresolvable_ref target)
  resolve_target rec target pointer (some v) c = rec v pointer (count c)

  unfoldable pub resolve_pointer :
      Rec F D → Bytes → Bytes → Option NodeId → Compiler F D → Lowered F D NodeId
  resolve_pointer rec target pointer (some id) c = done id c
  resolve_pointer rec target pointer none c =
      resolve_target rec target pointer (pointer_into c.root_value pointer) c

  -- The note on a remote reference is dropped with the compiler, as is every other on a failure.
  unfoldable pub resolve_ref : Rec F D → Bytes → Compiler F D → Lowered F D NodeId
  unfolding resolve_pointer resolve_target
  resolve_ref rec [] c = failed (unresolvable_ref [])
  resolve_ref rec (b ∷ pointer) c =
      if b == b'#'
      then resolve_pointer rec (b ∷ pointer) pointer (lookup pointer c.in_progress) c
      else failed (unresolvable_ref (b ∷ pointer))

  -- An object with no `$ref`.
  unfoldable pub lower_members : Rec F D → Members → Bytes → Compiler F D → Lowered F D NodeId
  lower_members rec members at c = lower_keys rec at members permissive (begin_node at c) >>= λ n d.
      done (next_id c) (end_node at (next_id c) n d)

  unfoldable pub lower_object :
      Rec F D → Option Value → Members → Bytes → Compiler F D → Lowered F D NodeId
  lower_object rec (some (Value.string target)) members at c = resolve_ref rec target c
  lower_object rec _ members at c = lower_members rec members at c

  unfoldable pub lower_value : Rec F D → Value → Bytes → Compiler F D → Lowered F D NodeId
  unfolding alloc lower_object lower_members resolve_ref
  lower_value rec (Value.bool b) at c = alloc (record permissive { boolean = some b }) (count c)
  lower_value rec (Value.object members) at c =
      lower_object rec (find_member (codes "$ref") members) members at c
  lower_value rec _ at c = failed not_a_schema

  unfoldable pub lower : ℕ → Value → Bytes → Compiler F D → Lowered F D NodeId
  unfolding lower_value
  lower zero v at c = spent
  lower (suc fuel) v at c = lower_value (lower fuel) v at c
