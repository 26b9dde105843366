-- ===== src/Schema/Compile/Arena/Nodes.antt =====
-- The arena of a compiled schema.
use mathlib.Core.Path.{subst}
use jawohl.Prelude.{
  ℕ, zero, suc, ◌+◌, ◌≤◌, ◌<◌, ◌≡◌, sym, Bool, List, [], ◌∷◌, ◌++◌, Option, none, some, arith,
  length, length-append, Bytes, codes, set, remove, lookup,
}
use jawohl.Value.{Value, Members, end, member, find_member}
use jawohl.Schema.Node.{NodeId, Node, permissive}
use jawohl.Schema.Pattern.{Dfa}
use jawohl.Schema.Report.{Schema}
use jawohl.Schema.Keyword.{keyword_of}
use jawohl.Schema.Compile.State.{
  Compiler, Lowered, done, failed, count, next_id, push_node, alloc, begin_node, end_node,
  pointer_into,
}
use jawohl.Schema.Compile.Lower.{
  below, Rec, apply_keyword, lower_keys, resolve_target, resolve_pointer, resolve_ref,
  lower_members, lower_object, lower_value, lower,
}
use jawohl.Schema.Compile.Entry.{Compiled, initial, schema_of, compile_value, compile}
use jawohl.Stream.Entry.{Result, parse_complete}
use jawohl.Validate.Numbers.{Floats}
use jawohl.Schema.Compile.Ensures.{Ensures, Ensures-bind, Ensures-weaken}
use jawohl.Schema.Compile.Arena.{
  EntriesIn, OptionIn, NodeIn, NodesIn, IsSound, Grown, EntriesIn-mono, EntriesIn-insert,
  EntriesIn-remove, EntriesIn-lookup, NodesIn-mono, NodesIn-push, NodesIn-set, permissive-NodeIn,
  length-set,
}
use jawohl.Schema.Compile.Arena.Leaves.{Fitting}
use jawohl.Schema.Compile.Arena.Keywords.{Grown-trans, NewId, IsSafe, apply_keyword-Ensures}

module _ {F D : Type 0} where
  length-push : (ns : List (Node F D)) (n : Node F D) → length (ns ++ n ∷ []) ≡ length ns + 1
  length-push ns n = length-append ns (n ∷ [])

  push_node-Grown :
      (n : Node F D) (c : Compiler F D)
      → IsSound c
      → NodeIn (length c.nodes) n
      → Grown c (push_node n c)
  push_node-Grown n c s h =
      let longer : length c.nodes ≤ length (c.nodes ++ n ∷ []) =
        omega (arith, length-push c.nodes n) in
      (
        record {
          nodes =
              NodesIn-mono (length c.nodes) (length (c.nodes ++ n ∷ [])) (c.nodes ++ n ∷ []) longer
                (NodesIn-push (length c.nodes) c.nodes n s.nodes h);
          progress =
              EntriesIn-mono (length c.nodes) (length (c.nodes ++ n ∷ [])) c.in_progress longer
                s.progress;
        },
        longer,
      )

  boolean-NodeIn :
      (b : Bool) (k : ℕ) → NodeIn {F = F} {D = D} k (record permissive { boolean = some b })
  boolean-NodeIn b k = record {
    items = tt;
    prefix_items = tt;
    properties = tt;
    additional = tt;
    all_of = tt;
    any_of = tt;
    one_of = tt;
    not_node = tt;
    enumeration = tt;
  }

  next_id-le : (c : Compiler F D) → next_id c ≤ length c.nodes
  next_id-le c = omega arith

  begin_node-IsSound :
      (at : Bytes) (c : Compiler F D)
      → IsSound c
      → IsSound (begin_node at c) × (length c.nodes < length (begin_node at c).nodes)
  unfolding begin_node
  begin_node-IsSound at c s =
      let g = push_node-Grown permissive c s (permissive-NodeIn (length c.nodes)) in
      let more : length c.nodes < length (c.nodes ++ permissive ∷ []) =
        omega (arith, length-push c.nodes permissive) in
      (
        record {
          nodes = g.0.nodes;
          progress =
              EntriesIn-insert (length (c.nodes ++ permissive ∷ [])) at (next_id c) c.in_progress
                (omega (arith, next_id-le c)) g.0.progress;
        },
        more,
      )

  end_node-IsSound :
      (at : Bytes) (id : NodeId) (n : Node F D) (c : Compiler F D)
      → IsSound c
      → NodeIn (length c.nodes) n
      → Grown c (end_node at id n c)
  unfolding end_node
  end_node-IsSound at id n c s h =
      let same = length-set c.nodes id n in
      (
        record {
          nodes =
              subst (λ k. NodesIn k (set c.nodes id n)) (sym same)
                (NodesIn-set (length c.nodes) c.nodes id n s.nodes h);
          progress =
              subst (λ k. EntriesIn k (remove at c.in_progress)) (sym same)
                (EntriesIn-remove (length c.nodes) at c.in_progress s.progress);
        },
        omega (arith, same),
      )

module _ {F D S : Type 0} (floats : Floats F) (ops : Dfa D S) (rec : Rec F D)
    (safe : IsSafe rec) where
  lower_keys-Ensures :
      (at : Bytes) (ms : Members) (n : Node F D) (c : Compiler F D)
      → IsSound c
      → NodeIn (length c.nodes) n
      → Ensures (Fitting c) (lower_keys floats ops rec at ms n c)
  unfolding lower_keys
  lower_keys-Ensures at end n c s h = ((s, omega arith), h)
  lower_keys-Ensures at (member key v ms) n c s h =
      Ensures-bind (Fitting c) (Fitting c)
        (apply_keyword floats ops rec (keyword_of key) key (below at key) v n c) _
        (apply_keyword-Ensures floats ops rec safe (keyword_of key) key (below at key) v n c s h)
        λ m d p.
          Ensures-weaken (Fitting d) (Fitting c) (lower_keys floats ops rec at ms m d)
            (lower_keys-Ensures at ms m d p.0.0 p.1) λ m' e q. (Grown-trans c d e p.0 q.0, q.1)

  lower_members-Ensures :
      (ms : Members) (at : Bytes) (c : Compiler F D)
      → IsSound c
      → Ensures (NewId c) (lower_members floats ops rec ms at c)
  unfolding lower_members
  lower_members-Ensures ms at c s =
      let (sound, more) = begin_node-IsSound at c s in
      Ensures-bind (Fitting (begin_node at c)) (NewId c)
        (lower_keys floats ops rec at ms permissive (begin_node at c)) _
        (lower_keys-Ensures at ms permissive (begin_node at c) sound (permissive-NodeIn _))
        λ n d p.
          let ended = end_node-IsSound at (next_id c) n d p.0.0 p.1 in
          ((ended.0, omega arith), omega (arith, next_id-le c))

  counted-IsSound : (c : Compiler F D) → IsSound c → IsSound (count c)
  counted-IsSound c s = record { nodes = s.nodes; progress = s.progress }

  resolve_target-Ensures :
      (target pointer : Bytes) (v : Option Value) (c : Compiler F D)
      → IsSound c
      → Ensures (NewId c) (resolve_target floats ops rec target pointer v c)
  unfolding resolve_target
  resolve_target-Ensures target pointer none c s = tt
  resolve_target-Ensures target pointer (some v) c s =
      safe v pointer (count c) (counted-IsSound c s)

  resolve_pointer-Ensures :
      (target pointer : Bytes) (id : Option NodeId) (c : Compiler F D)
      → IsSound c
      → OptionIn (length c.nodes) id
      → Ensures (NewId c) (resolve_pointer floats ops rec target pointer id c)
  unfolding resolve_pointer
  resolve_pointer-Ensures target pointer (some id) c s l = ((s, omega arith), l)
  resolve_pointer-Ensures target pointer none c s l =
      resolve_target-Ensures target pointer (pointer_into c.root_value pointer) c s

  resolve_ref-Ensures :
      (target : Bytes) (c : Compiler F D)
      → IsSound c
      → Ensures (NewId c) (resolve_ref floats ops rec target c)
  unfolding resolve_ref
  resolve_ref-Ensures [] c s = tt
  resolve_ref-Ensures (b ∷ pointer) c s = ground (
    arith,
    resolve_pointer-Ensures (b ∷ pointer) pointer (lookup pointer c.in_progress) c,
    EntriesIn-lookup (length c.nodes) pointer c.in_progress,
  )

  lower_object-Ensures :
      (ref : Option Value) (ms : Members) (at : Bytes) (c : Compiler F D)
      → IsSound c
      → Ensures (NewId c) (lower_object floats ops rec ref ms at c)
  unfolding lower_object
  lower_object-Ensures (some (Value.string target)) ms at c s = resolve_ref-Ensures target c s
  lower_object-Ensures _ ms at c s = lower_members-Ensures ms at c s

  lower_value-Ensures :
      (v : Value) (at : Bytes) (c : Compiler F D)
      → IsSound c
      → Ensures (NewId c) (lower_value floats ops rec v at c)
  unfolding lower_value alloc
  lower_value-Ensures (Value.bool b) at c s =
      let n = record permissive { boolean = some b } in
      (
        push_node-Grown n (count c) (counted-IsSound c s) (boolean-NodeIn b (length c.nodes)),
        omega (arith, next_id-le c, length-push c.nodes n),
      )
  lower_value-Ensures (Value.object ms) at c s =
      lower_object-Ensures (find_member (codes "$ref") ms) ms at c s
  lower_value-Ensures _ at c s = tt

module _ {F D S : Type 0} (floats : Floats F) (ops : Dfa D S) where
  lower-IsSafe : (fuel : ℕ) → IsSafe (lower floats ops fuel)
  unfolding lower
  lower-IsSafe zero v at c s = tt
  lower-IsSafe (suc fuel) v at c s =
      lower_value-Ensures floats ops (lower floats ops fuel) (lower-IsSafe fuel) v at c s

  -- The root is a node, every reference of a node is one, and every trie was built of members.
  abbrev pub IsClosed : Schema F D → Type 0
  IsClosed schema = (schema.root < length schema.nodes) × NodesIn (length schema.nodes) schema.nodes

  abbrev ClosedIf : Compiled (Schema F D) → Type 0
  ClosedIf (Compiled.ok schema) = IsClosed schema
  ClosedIf _ = Unit

  schema_of-ClosedIf :
      (c : Compiler F D) (m : Lowered F D NodeId)
      → Ensures (NewId c) m
      → ClosedIf (schema_of floats ops m)
  schema_of-ClosedIf c (done root d) h = (h.1, h.0.0.nodes)
  schema_of-ClosedIf c (failed e) h = tt
  schema_of-ClosedIf c Lowered.spent h = tt

  compile_value-ClosedIf :
      (fuel : ℕ) (r : Result Value) → ClosedIf (compile_value floats ops fuel r)
  compile_value-ClosedIf fuel (Result.ok v) =
      schema_of-ClosedIf (initial floats ops v) (lower floats ops fuel v [] (initial floats ops v))
        (lower-IsSafe fuel v [] (initial floats ops v) (record { nodes = tt; progress = tt }))
  compile_value-ClosedIf fuel (Result.err e) = tt
  compile_value-ClosedIf fuel Result.panic = tt

  -- In a compiled schema the root is the index of a node, so is every reference of a node, and every
  -- enum was built of its members.
  pub compile-IsClosed :
      (fuel : ℕ) (document : Bytes) (schema : Schema F D)
      → compile floats ops fuel document ≡ Compiled.ok schema
      → IsClosed schema
  unfolding compile
  compile-IsClosed fuel document schema e =
      subst ClosedIf e (compile_value-ClosedIf fuel (parse_complete document))
