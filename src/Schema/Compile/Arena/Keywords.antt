-- ===== src/Schema/Compile/Arena/Keywords.antt =====
-- The keywords with schemas below them, in a sound arena of src/schema/compile.rs.
use jawohl.Prelude.{
  ℕ, suc, ◌<◌, true, false, List, ◌++◌, Option, some, arith, length, Bytes, insert,
}
use jawohl.Pointer.{decimal}
use jawohl.Value.{Value, Values, Members, nil, cons, end, member}
use jawohl.Schema.Node.{NodeId, Node}
use jawohl.Schema.Pattern.{Dfa}
use jawohl.Schema.Report.{Reason}
use jawohl.Schema.Keyword.{Keyword}
use jawohl.Schema.Compile.State.{Compiler, count, note}
use jawohl.Schema.Compile.Leaves.{
  Changed, u64_at, f64_at, set_types, set_unique, set_pattern, set_enum, set_required,
}
use jawohl.Schema.Compile.Lower.{
  below, Rec, lower_items, lower_properties, set_properties, set_additional, set_list, set_schema,
  changed, bounded, apply_keyword,
}
use jawohl.Validate.Numbers.{Floats}
use jawohl.Schema.Compile.Ensures.{Ensures, Ensures-bind, Ensures-weaken}
use jawohl.Schema.Compile.Arena.{
  IdsIn, EntriesIn, NodeIn, IsSound, Grown, EntriesIn-mono, IdsIn-append, EntriesIn-insert,
  NodeIn-mono,
}
use jawohl.Schema.Compile.Arena.Leaves.{
  Unmoved, Fitting, Leaf, Unmoved-Fitting, note-Unmoved, set_types-Leaf, u64_at-Unmoved,
  f64_at-Unmoved, set_unique-Leaf, set_pattern-Leaf, set_enum-Leaf, set_required-Leaf,
}

module _ {F D : Type 0} where
  pub Grown-trans : (c d e : Compiler F D) → Grown c d → Grown d e → Grown c e
  Grown-trans c d e g h = (h.0, omega arith)

  counted-Grown : (c d : Compiler F D) → Grown c d → Grown c (count d)
  counted-Grown c d g = (record { nodes = g.0.nodes; progress = g.0.progress }, g.1)

  -- A sound state, and a node in it.
  abbrev pub NewId : Compiler F D → NodeId → Compiler F D → Type 0
  NewId c id d = Grown c d × (id < length d.nodes)

  abbrev pub IsSafe : Rec F D → Type 0
  IsSafe rec =
      (v : Value) (at : Bytes) (c : Compiler F D) → IsSound c → Ensures (NewId c) (rec v at c)

module _ {F D : Type 0} (rec : Rec F D) (safe : IsSafe rec) where
  abbrev NewIds : Compiler F D → List NodeId → Compiler F D → Type 0
  NewIds c ids d = Grown c d × IdsIn (length d.nodes) ids

  lower_items-Ensures :
      (loc : Bytes) (i : ℕ) (vs : Values) (c : Compiler F D)
      → IsSound c
      → Ensures (NewIds c) (lower_items rec loc i vs c)
  unfolding lower_items
  lower_items-Ensures loc i nil c s = ((s, omega arith), tt)
  lower_items-Ensures loc i (cons v vs) c s =
      Ensures-bind (NewId c) (NewIds c) (rec v (below loc (decimal i)) c) _
        (safe v (below loc (decimal i)) c s)
        λ id d p.
          Ensures-bind (NewIds d) (NewIds c) (lower_items rec loc (suc i) vs d) _
            (lower_items-Ensures loc (suc i) vs d p.0.0)
            λ ids e q. (Grown-trans c d e p.0 q.0, (omega arith, q.1))

  abbrev NewEntries : Compiler F D → List (Bytes × NodeId) → Compiler F D → Type 0
  NewEntries c ps d = Grown c d × EntriesIn (length d.nodes) ps

  lower_properties-Ensures :
      (loc : Bytes) (ms : Members) (props : List (Bytes × NodeId)) (c : Compiler F D)
      → IsSound c
      → EntriesIn (length c.nodes) props
      → Ensures (NewEntries c) (lower_properties rec loc ms props c)
  unfolding lower_properties
  lower_properties-Ensures loc end props c s h = ((s, omega arith), h)
  lower_properties-Ensures loc (member name v ms) props c s h =
      Ensures-bind (NewId c) (NewEntries c) (rec v (below loc name) c) _
        (safe v (below loc name) c s)
        λ id d p.
          Ensures-weaken (NewEntries d) (NewEntries c)
            (lower_properties rec loc ms (insert name id props) d)
            (lower_properties-Ensures loc ms (insert name id props) d p.0.0 (
              EntriesIn-insert (length d.nodes) name id props p.1
                (EntriesIn-mono (length c.nodes) (length d.nodes) props p.0.1 h)))
            λ ps e q. (Grown-trans c d e p.0 q.0, q.1)

  NodeIn-counted :
      (c d : Compiler F D) (n : Node F D)
      → Grown c d
      → NodeIn (length c.nodes) n
      → NodeIn (length (count d).nodes) n
  NodeIn-counted c d n g h = NodeIn-mono (length c.nodes) (length d.nodes) n g.1 h

  set_properties-Ensures :
      (loc : Bytes) (v : Value) (n : Node F D) (c : Compiler F D)
      → IsSound c
      → NodeIn (length c.nodes) n
      → Ensures (Fitting c) (set_properties rec loc v n c)
  unfolding set_properties
  set_properties-Ensures loc (Value.object props) n c s h =
      Ensures-bind (NewEntries c) (Fitting c) (lower_properties rec loc props n.properties c) _
        (lower_properties-Ensures loc props n.properties c s h.properties)
        λ ps d p. (counted-Grown c d p.0, ground (arith, NodeIn-counted c d n p.0 h))
  set_properties-Ensures loc _ n c s h = ((s, omega arith), h)

  set_additional-Ensures :
      (loc : Bytes) (v : Value) (n : Node F D) (c : Compiler F D)
      → IsSound c
      → NodeIn (length c.nodes) n
      → Ensures (Fitting c) (set_additional rec loc v n c)
  unfolding set_additional
  set_additional-Ensures loc (Value.bool true) n c s h =
      (counted-Grown c c (s, omega arith), ground arith)
  set_additional-Ensures loc (Value.bool false) n c s h =
      (counted-Grown c c (s, omega arith), ground arith)
  set_additional-Ensures loc v n c s h =
      Ensures-bind (NewId c) (Fitting c) (rec v loc c) _ (safe v loc c s)
        λ id d p. (counted-Grown c d p.0, ground (arith, NodeIn-counted c d n p.0 h))

  set_list-Ensures :
      (put : List NodeId → Node F D) (loc : Bytes) (v : Value) (n : Node F D) (c : Compiler F D)
      → IsSound c
      → NodeIn (length c.nodes) n
      → ((k : ℕ) (ids : List NodeId) → NodeIn k n → IdsIn k ids → NodeIn k (put ids))
      → Ensures (Fitting c) (set_list rec put loc v n c)
  unfolding set_list
  set_list-Ensures put loc (Value.array vs) n c s h fits =
      Ensures-bind (NewIds c) (Fitting c) (lower_items rec loc 0 vs c) _
        (lower_items-Ensures loc 0 vs c s)
        λ ids d p.
          (counted-Grown c d p.0, fits (length d.nodes) ids (NodeIn-counted c d n p.0 h) p.1)
  set_list-Ensures put loc _ n c s h fits = ((s, omega arith), h)

  set_schema-Ensures :
      (put : NodeId → Node F D) (loc : Bytes) (v : Value) (n : Node F D) (c : Compiler F D)
      → IsSound c
      → NodeIn (length c.nodes) n
      → ((k : ℕ) (id : NodeId) → NodeIn k n → id < k → NodeIn k (put id))
      → Ensures (Fitting c) (set_schema rec put loc v c)
  unfolding set_schema
  set_schema-Ensures put loc v n c s h fits =
      Ensures-bind (NewId c) (Fitting c) (rec v loc c) _ (safe v loc c s)
        λ id d p. (counted-Grown c d p.0, fits (length d.nodes) id (NodeIn-counted c d n p.0 h) p.1)

changed-Ensures :
    {F D : Type 0} (n : Node F D) (c : Compiler F D) (r : Changed F D)
    → IsSound c
    → NodeIn (length c.nodes) n
    → Leaf c n r
    → Ensures (Fitting c) (changed r)
changed-Ensures n c r s h l = Unmoved-Fitting c r.1 r.0 l.0 s (l.1 h)

bounded-Ensures :
    {F D B : Type 0} (put : Option B → Node F D) (c : Compiler F D) (r : Option B × Compiler F D)
    → IsSound c
    → Unmoved c r.1
    → NodeIn (length c.nodes) (put r.0)
    → Ensures (Fitting c) (bounded put r)
bounded-Ensures put c r s u h = Unmoved-Fitting c r.1 (put r.0) u s h

module _ {F D S : Type 0} (floats : Floats F) (ops : Dfa D S) (rec : Rec F D)
    (safe : IsSafe rec) where
  -- Every keyword keeps the arena sound.
  pub apply_keyword-Ensures :
      (k : Keyword) (key loc : Bytes) (v : Value) (n : Node F D) (c : Compiler F D)
      → IsSound c
      → NodeIn (length c.nodes) n
      → Ensures (Fitting c) (apply_keyword floats ops rec k key loc v n c)
  unfolding apply_keyword
  apply_keyword-Ensures Keyword.types key loc v n c s h =
      changed-Ensures n c (set_types loc v n c) s h (set_types-Leaf loc v n c)
  apply_keyword-Ensures Keyword.min_length key loc v n c s h =
      bounded-Ensures (λ x. record n { min_length = x }) c (u64_at v loc key c) s
        (u64_at-Unmoved v loc key c) (ground arith)
  apply_keyword-Ensures Keyword.max_length key loc v n c s h =
      bounded-Ensures (λ x. record n { max_length = x }) c (u64_at v loc key c) s
        (u64_at-Unmoved v loc key c) (ground arith)
  apply_keyword-Ensures Keyword.min_items key loc v n c s h =
      bounded-Ensures (λ x. record n { min_items = x }) c (u64_at v loc key c) s
        (u64_at-Unmoved v loc key c) (ground arith)
  apply_keyword-Ensures Keyword.max_items key loc v n c s h =
      bounded-Ensures (λ x. record n { max_items = x }) c (u64_at v loc key c) s
        (u64_at-Unmoved v loc key c) (ground arith)
  apply_keyword-Ensures Keyword.min_properties key loc v n c s h =
      bounded-Ensures (λ x. record n { min_properties = x }) c (u64_at v loc key c) s
        (u64_at-Unmoved v loc key c) (ground arith)
  apply_keyword-Ensures Keyword.max_properties key loc v n c s h =
      bounded-Ensures (λ x. record n { max_properties = x }) c (u64_at v loc key c) s
        (u64_at-Unmoved v loc key c) (ground arith)
  apply_keyword-Ensures Keyword.minimum key loc v n c s h =
      bounded-Ensures (λ x. record n { minimum = x }) c (f64_at floats v loc key c) s
        (f64_at-Unmoved floats v loc key c) (ground arith)
  apply_keyword-Ensures Keyword.maximum key loc v n c s h =
      bounded-Ensures (λ x. record n { maximum = x }) c (f64_at floats v loc key c) s
        (f64_at-Unmoved floats v loc key c) (ground arith)
  apply_keyword-Ensures Keyword.exclusive_minimum key loc v n c s h =
      bounded-Ensures (λ x. record n { exclusive_minimum = x }) c (f64_at floats v loc key c) s
        (f64_at-Unmoved floats v loc key c) (ground arith)
  apply_keyword-Ensures Keyword.exclusive_maximum key loc v n c s h =
      bounded-Ensures (λ x. record n { exclusive_maximum = x }) c (f64_at floats v loc key c) s
        (f64_at-Unmoved floats v loc key c) (ground arith)
  apply_keyword-Ensures Keyword.multiple_of key loc v n c s h =
      bounded-Ensures (λ x. record n { multiple_of = x }) c (f64_at floats v loc key c) s
        (f64_at-Unmoved floats v loc key c) (ground arith)
  apply_keyword-Ensures Keyword.unique_items key loc v n c s h =
      changed-Ensures n c (set_unique v n c) s h (set_unique-Leaf v n c)
  apply_keyword-Ensures Keyword.pattern key loc v n c s h =
      changed-Ensures n c (set_pattern ops loc v n c) s h (set_pattern-Leaf ops loc v n c)
  apply_keyword-Ensures Keyword.enumeration key loc v n c s h =
      changed-Ensures n c (set_enum v n c) s h (set_enum-Leaf v n c)
  apply_keyword-Ensures Keyword.const_value key loc v n c s h =
      (counted-Grown c c (s, omega arith), ground arith)
  apply_keyword-Ensures Keyword.required key loc v n c s h =
      changed-Ensures n c (set_required v n c) s h (set_required-Leaf v n c)
  apply_keyword-Ensures Keyword.properties key loc v n c s h =
      set_properties-Ensures rec safe loc v n c s h
  apply_keyword-Ensures Keyword.additional_properties key loc v n c s h =
      set_additional-Ensures rec safe loc v n c s h
  apply_keyword-Ensures Keyword.items key loc v n c s h =
      set_schema-Ensures rec safe (λ id. record n { items = some id }) loc v n c s h
        (λ k id i l. ground arith)
  apply_keyword-Ensures Keyword.prefix_items key loc v n c s h =
      set_list-Ensures rec safe (λ ids. record n { prefix_items = n.prefix_items ++ ids }) loc v n c
        s h (λ k ids i l. ground (arith, IdsIn-append k n.prefix_items ids))
  apply_keyword-Ensures Keyword.all_of key loc v n c s h =
      set_list-Ensures rec safe (λ ids. record n { all_of = ids }) loc v n c s h
        (λ k ids i l. ground arith)
  apply_keyword-Ensures Keyword.any_of key loc v n c s h =
      set_list-Ensures rec safe (λ ids. record n { any_of = ids }) loc v n c s h
        (λ k ids i l. ground arith)
  apply_keyword-Ensures Keyword.one_of key loc v n c s h =
      set_list-Ensures rec safe (λ ids. record n { one_of = ids }) loc v n c s h
        (λ k ids i l. ground arith)
  apply_keyword-Ensures Keyword.not_schema key loc v n c s h =
      set_schema-Ensures rec safe (λ id. record n { not_node = some id }) loc v n c s h
        (λ k id i l. ground arith)
  apply_keyword-Ensures Keyword.definitions key loc v n c s h = ((s, omega arith), h)
  apply_keyword-Ensures Keyword.annotation key loc v n c s h = ((s, omega arith), h)
  apply_keyword-Ensures (Keyword.deferred why) key loc v n c s h =
      Unmoved-Fitting c (note loc key why c) n (note-Unmoved c loc key why) s h
  apply_keyword-Ensures Keyword.unrecognised key loc v n c s h =
      Unmoved-Fitting c (note loc key Reason.unrecognised c) n
        (note-Unmoved c loc key Reason.unrecognised) s h
