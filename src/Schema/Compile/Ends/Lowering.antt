-- ===== src/Schema/Compile/Ends/Lowering.antt =====
-- The recursion of `lower`, keyword by keyword.
use mathlib.Core.Path.{subst}
use jawohl.Prelude.{
  ℕ, zero, suc, ◌≤◌, ◌≡◌, ◌≢◌, ◌∙◌, sym, ap, true, false, List, [], ◌++◌, Option, some, arith,
  Bytes, codes, insert,
}
use jawohl.Pointer.{decimal}
use jawohl.Value.{Value, Values, Members, nil, cons, end, member, find_member}
use jawohl.Schema.Pattern.{Dfa}
use jawohl.Schema.Node.{NodeId, Node, permissive}
use jawohl.Schema.Keyword.{Keyword, keyword_of}
use jawohl.Schema.Report.{Schema}
use jawohl.Schema.Compile.State.{Compiler, Lowered, done, failed, alloc, begin_node}
use jawohl.Schema.Compile.Lower.{
  below, Rec, lower_items, lower_properties, set_properties, set_additional, set_list, set_schema,
  apply_keyword, lower_keys, lower_members, lower_object, lower_value, lower,
}
use jawohl.Schema.Compile.Entry.{Compiled, initial, schema_of, compile_value, compile}
use jawohl.Schema.Compile.Accounted.{is_ref}
use jawohl.Schema.Compile.Ends.{
  size, size_items, size_members, IsRefFree, AreRefFree, MembersRefFree, Ends, Ends-bind,
}
use jawohl.Stream.Entry.{Result, parse_complete}
use jawohl.Validate.Numbers.{Floats}

module _ {F D : Type 0} where
  -- The recursive call ends on what is no larger than the fuel.
  abbrev EndsWithin : ℕ → Rec F D → Type 0
  EndsWithin fuel rec =
      (v : Value) (at : Bytes) (c : Compiler F D) → IsRefFree v → size v ≤ fuel → Ends (rec v at c)

module _ {F D : Type 0} (fuel : ℕ) (rec : Rec F D) (ends : EndsWithin fuel rec) where
  lower_items-Ends :
      (loc : Bytes) (i : ℕ) (vs : Values) (c : Compiler F D)
      → AreRefFree vs
      → size_items vs ≤ fuel
      → Ends (lower_items rec loc i vs c)
  unfolding lower_items size AreRefFree
  lower_items-Ends loc i nil c free fits = tt
  lower_items-Ends loc i (cons v vs) c free fits =
      Ends-bind (rec v (below loc (decimal i)) c) _
        (ends v (below loc (decimal i)) c free.0 (omega arith))
        (λ id d.
          Ends-bind (lower_items rec loc (suc i) vs d) _
            (lower_items-Ends loc (suc i) vs d free.1 (omega arith)) (λ ids e. tt))

  lower_properties-Ends :
      (loc : Bytes) (ms : Members) (ps : List (Bytes × NodeId)) (c : Compiler F D)
      → MembersRefFree ms
      → size_members ms ≤ fuel
      → Ends (lower_properties rec loc ms ps c)
  unfolding lower_properties size MembersRefFree
  lower_properties-Ends loc end ps c free fits = tt
  lower_properties-Ends loc (member name v ms) ps c free fits =
      Ends-bind (rec v (below loc name) c) _ (ends v (below loc name) c free.0 (omega arith))
        (λ id d. lower_properties-Ends loc ms (insert name id ps) d free.1 (omega arith))

  set_properties-Ends :
      (loc : Bytes) (v : Value) (n : Node F D) (c : Compiler F D)
      → IsRefFree v
      → size v ≤ fuel
      → Ends (set_properties rec loc v n c)
  unfolding set_properties size IsRefFree
  set_properties-Ends loc (Value.object ms) n c free fits =
      Ends-bind (lower_properties rec loc ms n.properties c) _
        (lower_properties-Ends loc ms n.properties c free.1 (omega arith)) (λ ps d. tt)
  set_properties-Ends loc _ n c free fits = tt

  set_list-Ends :
      (put : List NodeId → Node F D) (loc : Bytes) (v : Value) (n : Node F D) (c : Compiler F D)
      → IsRefFree v
      → size v ≤ fuel
      → Ends (set_list rec put loc v n c)
  unfolding set_list size IsRefFree
  set_list-Ends put loc (Value.array vs) n c free fits =
      Ends-bind (lower_items rec loc 0 vs c) _ (lower_items-Ends loc 0 vs c free (omega arith))
        (λ ids d. tt)
  set_list-Ends put loc _ n c free fits = tt

  set_schema-Ends :
      (put : NodeId → Node F D) (loc : Bytes) (v : Value) (c : Compiler F D)
      → IsRefFree v
      → size v ≤ fuel
      → Ends (set_schema rec put loc v c)
  unfolding set_schema
  set_schema-Ends put loc v c free fits =
      Ends-bind (rec v loc c) _ (ends v loc c free fits) (λ id d. tt)

  set_additional-Ends :
      (loc : Bytes) (v : Value) (n : Node F D) (c : Compiler F D)
      → IsRefFree v
      → size v ≤ fuel
      → Ends (set_additional rec loc v n c)
  unfolding set_additional
  set_additional-Ends loc (Value.bool true) n c free fits = tt
  set_additional-Ends loc (Value.bool false) n c free fits = tt
  set_additional-Ends loc v n c free fits =
      Ends-bind (rec v loc c) _ (ends v loc c free fits) (λ id d. tt)

module _ {F D S : Type 0} (floats : Floats F) (ops : Dfa D S) (fuel : ℕ) (rec : Rec F D)
    (ends : EndsWithin fuel rec) where
  apply_keyword-Ends :
      (k : Keyword) (key loc : Bytes) (v : Value) (n : Node F D) (c : Compiler F D)
      → IsRefFree v
      → size v ≤ fuel
      → Ends (apply_keyword floats ops rec k key loc v n c)
  unfolding apply_keyword
  apply_keyword-Ends Keyword.types key loc v n c free fits = tt
  apply_keyword-Ends Keyword.unique_items key loc v n c free fits = tt
  apply_keyword-Ends Keyword.pattern key loc v n c free fits = tt
  apply_keyword-Ends Keyword.enumeration key loc v n c free fits = tt
  apply_keyword-Ends Keyword.required key loc v n c free fits = tt
  apply_keyword-Ends Keyword.min_length key loc v n c free fits = tt
  apply_keyword-Ends Keyword.max_length key loc v n c free fits = tt
  apply_keyword-Ends Keyword.min_items key loc v n c free fits = tt
  apply_keyword-Ends Keyword.max_items key loc v n c free fits = tt
  apply_keyword-Ends Keyword.min_properties key loc v n c free fits = tt
  apply_keyword-Ends Keyword.max_properties key loc v n c free fits = tt
  apply_keyword-Ends Keyword.minimum key loc v n c free fits = tt
  apply_keyword-Ends Keyword.maximum key loc v n c free fits = tt
  apply_keyword-Ends Keyword.exclusive_minimum key loc v n c free fits = tt
  apply_keyword-Ends Keyword.exclusive_maximum key loc v n c free fits = tt
  apply_keyword-Ends Keyword.multiple_of key loc v n c free fits = tt
  apply_keyword-Ends Keyword.const_value key loc v n c free fits = tt
  apply_keyword-Ends Keyword.definitions key loc v n c free fits = tt
  apply_keyword-Ends Keyword.annotation key loc v n c free fits = tt
  apply_keyword-Ends Keyword.unrecognised key loc v n c free fits = tt
  apply_keyword-Ends (Keyword.deferred why) key loc v n c free fits = tt
  apply_keyword-Ends Keyword.properties key loc v n c free fits =
      set_properties-Ends fuel rec ends loc v n c free fits
  apply_keyword-Ends Keyword.additional_properties key loc v n c free fits =
      set_additional-Ends fuel rec ends loc v n c free fits
  apply_keyword-Ends Keyword.items key loc v n c free fits =
      set_schema-Ends fuel rec ends (λ id. record n { items = some id }) loc v c free fits
  apply_keyword-Ends Keyword.not_schema key loc v n c free fits =
      set_schema-Ends fuel rec ends (λ id. record n { not_node = some id }) loc v c free fits
  apply_keyword-Ends Keyword.prefix_items key loc v n c free fits =
      set_list-Ends fuel rec ends (λ ids. record n { prefix_items = n.prefix_items ++ ids }) loc v n
        c free fits
  apply_keyword-Ends Keyword.all_of key loc v n c free fits =
      set_list-Ends fuel rec ends (λ ids. record n { all_of = ids }) loc v n c free fits
  apply_keyword-Ends Keyword.any_of key loc v n c free fits =
      set_list-Ends fuel rec ends (λ ids. record n { any_of = ids }) loc v n c free fits
  apply_keyword-Ends Keyword.one_of key loc v n c free fits =
      set_list-Ends fuel rec ends (λ ids. record n { one_of = ids }) loc v n c free fits

  lower_keys-Ends :
      (at : Bytes) (ms : Members) (n : Node F D) (c : Compiler F D)
      → MembersRefFree ms
      → size_members ms ≤ fuel
      → Ends (lower_keys floats ops rec at ms n c)
  unfolding lower_keys size MembersRefFree
  lower_keys-Ends at end n c free fits = tt
  lower_keys-Ends at (member key v ms) n c free fits =
      Ends-bind (apply_keyword floats ops rec (keyword_of key) key (below at key) v n c) _
        (apply_keyword-Ends (keyword_of key) key (below at key) v n c free.0 (omega arith))
        (λ m d. lower_keys-Ends at ms m d free.1 (omega arith))

  lower_members-Ends :
      (ms : Members) (at : Bytes) (c : Compiler F D)
      → MembersRefFree ms
      → size_members ms ≤ fuel
      → Ends (lower_members floats ops rec ms at c)
  unfolding lower_members
  lower_members-Ends ms at c free fits =
      Ends-bind (lower_keys floats ops rec at ms permissive (begin_node at c)) _
        (lower_keys-Ends at ms permissive (begin_node at c) free fits) (λ n d. tt)

  lower_object-Ends :
      (ref : Option Value) (ms : Members) (at : Bytes) (c : Compiler F D)
      → is_ref ref ≡ false
      → MembersRefFree ms
      → size_members ms ≤ fuel
      → Ends (lower_object floats ops rec ref ms at c)
  unfolding lower_object
  lower_object-Ends (some (Value.string target)) ms at c e free fits = cc
  lower_object-Ends _ ms at c e free fits = lower_members-Ends ms at c free fits

  lower_value-Ends :
      (v : Value) (at : Bytes) (c : Compiler F D)
      → IsRefFree v
      → size v ≤ suc fuel
      → Ends (lower_value floats ops rec v at c)
  unfolding lower_value alloc size IsRefFree
  lower_value-Ends (Value.object ms) at c free fits =
      lower_object-Ends (find_member (codes "$ref") ms) ms at c free.0 free.1 (omega arith)
  lower_value-Ends _ at c free fits = tt

size-positive : (v : Value) → 1 ≤ size v
unfolding size
size-positive v = ground arith

module _ {F D S : Type 0} (floats : Floats F) (ops : Dfa D S) where
  lower-Ends : (fuel : ℕ) → EndsWithin fuel (lower floats ops fuel)
  unfolding lower
  lower-Ends zero v at c free fits = omega (arith, size-positive v)
  lower-Ends (suc fuel) v at c free fits =
      lower_value-Ends floats ops fuel (lower floats ops fuel) (lower-Ends fuel) v at c free fits

  abbrev EndsToo : Compiled (Schema F D) → Type 0
  EndsToo Compiled.spent = ⊥
  EndsToo _ = Unit

  schema_of-EndsToo : (m : Lowered F D NodeId) → Ends m → EndsToo (schema_of floats ops m)
  schema_of-EndsToo (done root d) h = tt
  schema_of-EndsToo (failed e) h = tt
  schema_of-EndsToo Lowered.spent h = elim h [ ]

  -- The compiler returns on every document with no string `$ref` in any object, and needs no more
  -- calls of `lower` below each other than the document has values.
  pub compile_ends :
      (fuel : ℕ) (document : Bytes) (v : Value)
      → parse_complete document ≡ Result.ok v
      → IsRefFree v
      → size v ≤ fuel
      → compile floats ops fuel document ≢ Compiled.spent
  unfolding compile
  compile_ends fuel document v parsed free fits e =
      subst EndsToo (ap (compile_value floats ops fuel) (sym parsed) ∙ e) (
        schema_of-EndsToo (lower floats ops fuel v [] (initial floats ops v))
          (lower-Ends fuel v [] (initial floats ops v) free fits))
