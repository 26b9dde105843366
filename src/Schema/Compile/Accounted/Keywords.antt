-- ===== src/Schema/Compile/Accounted/Keywords.antt =====
-- The keywords with schemas below them, and the members of an object, in the report.
use jawohl.Prelude.{
  ℕ, zero, suc, ◌+◌, ◌≤◌, true, false, List, [], ◌∷◌, ◌++◌, Option, none, some, arith, Bytes, codes,
  lookup, insert, if◌then◌else◌,
}
use jawohl.Pointer.{decimal}
use jawohl.Value.{Value, Values, Members, nil, cons, end, member, find_member}
use jawohl.Schema.Pattern.{Dfa}
use jawohl.Schema.Node.{NodeId, Node, AdditionalProperties, permissive}
use jawohl.Schema.Report.{Reason}
use jawohl.Schema.Keyword.{Keyword, keyword_of}
use jawohl.Schema.Compile.State.{
  Compiler, Lowered, done, ◌>>=◌, count, next_id, alloc, begin_node, end_node, pointer_into,
}
use jawohl.Schema.Compile.Lower.{
  below, Rec, lower_items, lower_properties, set_properties, set_additional, set_list, set_schema,
  apply_keyword, lower_keys, resolve_target, resolve_pointer, resolve_ref, lower_members,
  lower_object, lower_value, lower,
}
use jawohl.Schema.Compile.Ensures.{Ensures, Ensures-bind, Ensures-weaken}
use jawohl.Schema.Compile.Accounted.{
  Scale, count-More, of_array, is_ref, owed, obligations, listed, mapped, of_items, of_members,
  of_keys, More, note-More,
}
use jawohl.Schema.Compile.Accounted.Types.{
  set_types-More, u64_at-More, f64_at-More, set_unique-More, set_pattern-More, set_enum-More,
  set_required-More,
}
use jawohl.Validate.Numbers.{Floats}

module _ {F D S : Type 0} (floats : Floats F) (ops : Dfa D S) (s : Scale) where
  -- A result whose report measures `k` more than that of `c`.
  abbrev pub Reports : {A : Type 0} → ℕ → Compiler F D → Lowered F D A → Type 0
  Reports k c = Ensures (λ a d. More s k c d)

  abbrev pub Accounts : Rec F D → Type 0
  Accounts rec =
      (v : Value) (at : Bytes) (c : Compiler F D)
      → Reports (obligations floats ops s.one s.entry v at) c (rec v at c)

  Reports-bind :
      {A B : Type 0} (j k i : ℕ) (c : Compiler F D) (m : Lowered F D A)
      (f : A → Compiler F D → Lowered F D B)
      → Reports j c m
      → ((a : A) (d : Compiler F D) → Reports k d (f a d))
      → i ≤ j + k
      → Reports i c (m >>= f)
  Reports-bind j k i c m f h g le =
      Ensures-bind (λ a d. More s j c d) (λ b e. More s i c e) m f h
        (λ a d l.
          Ensures-weaken (λ b e. More s k d e) (λ b e. More s i c e) (f a d) (g a d)
            (λ b e l'. omega arith))

module _ {F D S : Type 0} (floats : Floats F) (ops : Dfa D S) (s : Scale) (rec : Rec F D)
    (sub : Accounts floats ops s rec) where
  abbrev Tells : {A : Type 0} → ℕ → Compiler F D → Lowered F D A → Type 0
  Tells = Reports floats ops s

  lower_items-Reports :
      (loc : Bytes) (i : ℕ) (vs : Values) (c : Compiler F D)
      → Tells (of_items floats ops s.one s.entry vs loc i) c (lower_items rec loc i vs c)
  unfolding lower_items of_items
  lower_items-Reports loc i nil c = omega arith
  lower_items-Reports loc i (cons v vs) c =
      Reports-bind floats ops s _ (of_items floats ops s.one s.entry vs loc (suc i)) _ c
        (rec v (below loc (decimal i)) c)
        (λ id d. lower_items rec loc (suc i) vs d >>= λ ids e. done (id ∷ ids) e)
        (sub v (below loc (decimal i)) c)
        (λ id d.
          Reports-bind floats ops s (of_items floats ops s.one s.entry vs loc (suc i)) 0 _ d
            (lower_items rec loc (suc i) vs d) (λ ids e. done (id ∷ ids) e)
            (lower_items-Reports loc (suc i) vs d) (λ ids e. omega arith) (omega arith))
        (omega arith)

  lower_properties-Reports :
      (loc : Bytes) (ms : Members) (ps : List (Bytes × NodeId)) (c : Compiler F D)
      → Tells (of_members floats ops s.one s.entry ms loc) c (lower_properties rec loc ms ps c)
  unfolding lower_properties of_members
  lower_properties-Reports loc end ps c = omega arith
  lower_properties-Reports loc (member name v ms) ps c =
      Reports-bind floats ops s _ (of_members floats ops s.one s.entry ms loc) _ c
        (rec v (below loc name) c) (λ id d. lower_properties rec loc ms (insert name id ps) d)
        (sub v (below loc name) c) (λ id d. lower_properties-Reports loc ms (insert name id ps) d)
        (omega arith)

  -- The arm of a keyword adds what the keyword is owed.
  abbrev Owes : Keyword → Bytes → Bytes → Value → Compiler F D → Lowered F D (Node F D) → Type 0
  Owes k key loc v c m =
      Tells
        (owed floats ops s.one s.entry k key loc v (obligations floats ops s.one s.entry v loc)
          (listed floats ops s.one s.entry v loc) (mapped floats ops s.one s.entry v loc))
        c m

  set_properties-Owes :
      (key loc : Bytes) (v : Value) (n : Node F D) (c : Compiler F D)
      → Owes Keyword.properties key loc v c (set_properties rec loc v n c)
  unfolding set_properties owed mapped
  set_properties-Owes key loc (Value.object ms) n c =
      Reports-bind floats ops s (of_members floats ops s.one s.entry ms loc) s.one _ c
        (lower_properties rec loc ms n.properties c)
        (λ ps d. done (record n { properties = ps }) (count d))
        (lower_properties-Reports loc ms n.properties c) (λ ps d. omega (arith, count-More s d))
        (omega arith)
  set_properties-Owes key loc _ n c = omega arith

  set_list-Tells :
      (put : List NodeId → Node F D) (loc : Bytes) (v : Value) (n : Node F D) (c : Compiler F D)
      → Tells
          (of_array floats ops s.one s.entry v (listed floats ops s.one s.entry v loc))
          c
          (set_list rec put loc v n c)
  unfolding set_list listed
  set_list-Tells put loc (Value.array vs) n c =
      Reports-bind floats ops s (of_items floats ops s.one s.entry vs loc 0) s.one _ c
        (lower_items rec loc 0 vs c) (λ ids d. done (put ids) (count d))
        (lower_items-Reports loc 0 vs c) (λ ids d. omega (arith, count-More s d)) (omega arith)
  set_list-Tells put loc _ n c = omega arith

  set_schema-Tells :
      (put : NodeId → Node F D) (loc : Bytes) (v : Value) (c : Compiler F D)
      → Tells (s.one + obligations floats ops s.one s.entry v loc) c (set_schema rec put loc v c)
  unfolding set_schema
  set_schema-Tells put loc v c =
      Reports-bind floats ops s (obligations floats ops s.one s.entry v loc) s.one _ c (rec v loc c)
        (λ id d. done (put id) (count d)) (sub v loc c) (λ id d. omega (arith, count-More s d))
        (omega arith)

  set_additional-Owes :
      (key loc : Bytes) (v : Value) (n : Node F D) (c : Compiler F D)
      → Owes Keyword.additional_properties key loc v c (set_additional rec loc v n c)
  unfolding set_additional owed
  set_additional-Owes key loc (Value.bool true) n c = omega (arith, count-More s c)
  set_additional-Owes key loc (Value.bool false) n c = omega (arith, count-More s c)
  set_additional-Owes key loc v n c =
      Reports-bind floats ops s (obligations floats ops s.one s.entry v loc) s.one _ c (rec v loc c)
        (λ id d.
          done (record n { additional_properties = AdditionalProperties.schema id }) (count d))
        (sub v loc c) (λ id d. omega (arith, count-More s d)) (omega arith)

  apply_keyword-Owes :
      (k : Keyword) (key loc : Bytes) (v : Value) (n : Node F D) (c : Compiler F D)
      → Owes k key loc v c (apply_keyword floats ops rec k key loc v n c)
  unfolding apply_keyword owed
  apply_keyword-Owes Keyword.types key loc v n c = set_types-More floats ops s loc v n c
  apply_keyword-Owes Keyword.min_length key loc v n c = u64_at-More floats ops s v loc key c
  apply_keyword-Owes Keyword.max_length key loc v n c = u64_at-More floats ops s v loc key c
  apply_keyword-Owes Keyword.min_items key loc v n c = u64_at-More floats ops s v loc key c
  apply_keyword-Owes Keyword.max_items key loc v n c = u64_at-More floats ops s v loc key c
  apply_keyword-Owes Keyword.min_properties key loc v n c = u64_at-More floats ops s v loc key c
  apply_keyword-Owes Keyword.max_properties key loc v n c = u64_at-More floats ops s v loc key c
  apply_keyword-Owes Keyword.minimum key loc v n c = f64_at-More floats ops s v loc key c
  apply_keyword-Owes Keyword.maximum key loc v n c = f64_at-More floats ops s v loc key c
  apply_keyword-Owes Keyword.exclusive_minimum key loc v n c = f64_at-More floats ops s v loc key c
  apply_keyword-Owes Keyword.exclusive_maximum key loc v n c = f64_at-More floats ops s v loc key c
  apply_keyword-Owes Keyword.multiple_of key loc v n c = f64_at-More floats ops s v loc key c
  apply_keyword-Owes Keyword.unique_items key loc v n c = set_unique-More floats ops s v n c
  apply_keyword-Owes Keyword.pattern key loc v n c = set_pattern-More floats ops s loc v n c
  apply_keyword-Owes Keyword.enumeration key loc v n c = set_enum-More floats ops s v n c
  apply_keyword-Owes Keyword.required key loc v n c = set_required-More floats ops s v n c
  apply_keyword-Owes Keyword.const_value key loc v n c = omega (arith, count-More s c)
  apply_keyword-Owes Keyword.properties key loc v n c = set_properties-Owes key loc v n c
  apply_keyword-Owes Keyword.additional_properties key loc v n c = set_additional-Owes key loc v n c
  apply_keyword-Owes Keyword.items key loc v n c =
      set_schema-Tells (λ id. record n { items = some id }) loc v c
  apply_keyword-Owes Keyword.prefix_items key loc v n c =
      set_list-Tells (λ ids. record n { prefix_items = n.prefix_items ++ ids }) loc v n c
  apply_keyword-Owes Keyword.all_of key loc v n c =
      set_list-Tells (λ ids. record n { all_of = ids }) loc v n c
  apply_keyword-Owes Keyword.any_of key loc v n c =
      set_list-Tells (λ ids. record n { any_of = ids }) loc v n c
  apply_keyword-Owes Keyword.one_of key loc v n c =
      set_list-Tells (λ ids. record n { one_of = ids }) loc v n c
  apply_keyword-Owes Keyword.not_schema key loc v n c =
      set_schema-Tells (λ id. record n { not_node = some id }) loc v c
  apply_keyword-Owes Keyword.definitions key loc v n c = omega arith
  apply_keyword-Owes Keyword.annotation key loc v n c = omega arith
  apply_keyword-Owes (Keyword.deferred why) key loc v n c = omega (arith, note-More s loc key why c)
  apply_keyword-Owes Keyword.unrecognised key loc v n c =
      omega (arith, note-More s loc key Reason.unrecognised c)

  lower_keys-Reports :
      (at : Bytes) (ms : Members) (n : Node F D) (c : Compiler F D)
      → Tells (of_keys floats ops s.one s.entry ms at) c (lower_keys floats ops rec at ms n c)
  unfolding lower_keys of_keys
  lower_keys-Reports at end n c = omega arith
  lower_keys-Reports at (member key v ms) n c =
      Reports-bind floats ops s _ (of_keys floats ops s.one s.entry ms at) _ c
        (apply_keyword floats ops rec (keyword_of key) key (below at key) v n c)
        (λ m d. lower_keys floats ops rec at ms m d)
        (apply_keyword-Owes (keyword_of key) key (below at key) v n c)
        (λ m d. lower_keys-Reports at ms m d) (omega arith)

  lower_members-Reports :
      (ms : Members) (at : Bytes) (c : Compiler F D)
      → Tells (of_keys floats ops s.one s.entry ms at) c (lower_members floats ops rec ms at c)
  unfolding lower_members begin_node end_node
  lower_members-Reports ms at c =
      Reports-bind floats ops s (of_keys floats ops s.one s.entry ms at) 0 _ c
        (lower_keys floats ops rec at ms permissive (begin_node at c))
        (λ n d. done (next_id c) (end_node at (next_id c) n d))
        (lower_keys-Reports at ms permissive (begin_node at c)) (λ n d. omega arith) (omega arith)

  resolve_target-Reports :
      (target pointer : Bytes) (v : Option Value) (c : Compiler F D)
      → Tells 0 c (resolve_target floats ops rec target pointer v c)
  unfolding resolve_target
  resolve_target-Reports target pointer none c = tt
  resolve_target-Reports target pointer (some v) c =
      Ensures-weaken (λ a d. More s (obligations floats ops s.one s.entry v pointer) (count c) d)
        (λ a d. More s 0 c d) (rec v pointer (count c)) (sub v pointer (count c))
        (λ a d l. omega (arith, count-More s c))

  resolve_pointer-Reports :
      (target pointer : Bytes) (id : Option NodeId) (c : Compiler F D)
      → Tells 0 c (resolve_pointer floats ops rec target pointer id c)
  unfolding resolve_pointer
  resolve_pointer-Reports target pointer (some id) c = omega arith
  resolve_pointer-Reports target pointer none c =
      resolve_target-Reports target pointer (pointer_into c.root_value pointer) c

  resolve_ref-Reports :
      (target : Bytes) (c : Compiler F D) → Tells 0 c (resolve_ref floats ops rec target c)
  unfolding resolve_ref
  resolve_ref-Reports [] c = tt
  resolve_ref-Reports (b ∷ pointer) c =
      ground (arith, resolve_pointer-Reports (b ∷ pointer) pointer (lookup pointer c.in_progress) c)

  lower_object-Reports :
      (ref : Option Value) (ms : Members) (at : Bytes) (c : Compiler F D)
      → Tells
          (if is_ref ref then 0 else of_keys floats ops s.one s.entry ms at)
          c
          (lower_object floats ops rec ref ms at c)
  unfolding lower_object
  lower_object-Reports none ms at c = lower_members-Reports ms at c
  lower_object-Reports (some (Value.string target)) ms at c = resolve_ref-Reports target c
  lower_object-Reports (some _) ms at c = lower_members-Reports ms at c

  lower_value-Reports :
      (v : Value) (at : Bytes) (c : Compiler F D)
      → Tells (obligations floats ops s.one s.entry v at) c (lower_value floats ops rec v at c)
  unfolding lower_value alloc obligations
  lower_value-Reports (Value.bool b) at c = omega (arith, count-More s c)
  lower_value-Reports (Value.object ms) at c =
      lower_object-Reports (find_member (codes "$ref") ms) ms at c
  lower_value-Reports _ at c = tt

module _ {F D S : Type 0} (floats : Floats F) (ops : Dfa D S) (s : Scale) where
  pub lower-Accounts : (fuel : ℕ) → Accounts floats ops s (lower floats ops fuel)
  unfolding lower
  lower-Accounts zero v at c = tt
  lower-Accounts (suc fuel) v at c =
      lower_value-Reports floats ops s (lower floats ops fuel) (lower-Accounts fuel) v at c
