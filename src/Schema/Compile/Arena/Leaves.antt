-- ===== src/Schema/Compile/Arena/Leaves.antt =====
-- The keywords with no schema below them leave the arena of src/schema/compile.rs alone.
use mathlib.Core.Path.{subst}
use jawohl.Prelude.{ℕ, ◌≡◌, refl, sym, ap, List, Option, none, some, arith, length, Bytes}
use jawohl.Pointer.{parse_usize}
use jawohl.Value.{Value, Values, nil, cons}
use jawohl.Schema.Pattern.{Dfa, Pattern}
use jawohl.Schema.Pattern as Patterns
use jawohl.Schema.Node.{TypeSet, no_type, from_name, Node}
use jawohl.Schema.Report.{Reason}
use jawohl.Schema.Compile.State.{Compiler, note}
use jawohl.Schema.Compile.Leaves.{
  Changed, add_type, add_types, type_set, set_types, counted_u64, u64_at, counted_f64, f64_at,
  set_unique, with_pattern, set_pattern, set_enum, string_items, has_other, set_required,
}
use jawohl.Validate.Numbers.{Floats}
use jawohl.Schema.Compile.Arena.{EntriesIn, NodeIn, NodesIn, IsSound, Grown}

module _ {F D : Type 0} where
  -- Only the report has changed.
  abbrev pub Unmoved : Compiler F D → Compiler F D → Type 0
  Unmoved c d =
      (d.nodes ≡ c.nodes) × (d.in_progress ≡ c.in_progress) × (d.root_value ≡ c.root_value)

  -- The state is sound and has at least the nodes of `c`, and the node refers to them.
  abbrev pub Fitting : Compiler F D → Node F D → Compiler F D → Type 0
  Fitting c m d = Grown c d × NodeIn (length d.nodes) m

  pub Unmoved-Grown : (c d : Compiler F D) → Unmoved c d → IsSound c → Grown c d
  Unmoved-Grown c d u s = (
    record {
      nodes = subst (λ ns. NodesIn (length ns) ns) (sym u.0) s.nodes;
      progress =
          subst (λ ns. EntriesIn (length ns) d.in_progress) (sym u.0)
            (subst (λ es. EntriesIn (length c.nodes) es) (sym u.1) s.progress);
    },
    omega (arith, ap (λ (ns : List (Node F D)). length ns) u.0),
  )

  pub Unmoved-Fitting :
      (c d : Compiler F D) (m : Node F D)
      → Unmoved c d
      → IsSound c
      → NodeIn (length c.nodes) m
      → Fitting c m d
  Unmoved-Fitting c d m u s h =
      (Unmoved-Grown c d u s, subst (λ ns. NodeIn (length ns) m) (sym u.0) h)

  pub note-Unmoved :
      (c : Compiler F D) (loc key : Bytes) (why : Reason) → Unmoved c (note loc key why c)
  unfolding note
  note-Unmoved c loc key why = (refl, refl, refl)

  add_type-Unmoved :
      (c : Compiler F D) (loc name : Bytes) (t : Option TypeSet) (tc : TypeSet × Compiler F D)
      → Unmoved c tc.1
      → Unmoved c (add_type loc name t tc).1
  unfolding note
  add_type-Unmoved c loc name none tc u = u
  add_type-Unmoved c loc name (some t) tc u = u

  add_types-Unmoved :
      (c : Compiler F D) (loc : Bytes) (vs : Values) (tc : TypeSet × Compiler F D)
      → Unmoved c tc.1
      → Unmoved c (add_types loc vs tc).1
  unfolding add_types
  add_types-Unmoved c loc nil tc u = u
  add_types-Unmoved c loc (cons (Value.string s) vs) tc u =
      add_types-Unmoved c loc vs (add_type loc s (from_name s) tc)
        (add_type-Unmoved c loc s (from_name s) tc u)
  add_types-Unmoved c loc (cons _ vs) tc u = add_types-Unmoved c loc vs tc u

  type_set-Unmoved : (c : Compiler F D) (loc : Bytes) (v : Value) → Unmoved c (type_set loc v c).1
  unfolding type_set note
  type_set-Unmoved c loc (Value.string s) =
      add_type-Unmoved c loc s (from_name s) (no_type, c) (refl, refl, refl)
  type_set-Unmoved c loc (Value.array items) =
      add_types-Unmoved c loc items (no_type, c) (refl, refl, refl)
  type_set-Unmoved c loc _ = (refl, refl, refl)

  -- The node of the pair fits where the given one does.
  abbrev pub Leaf : Compiler F D → Node F D → Changed F D → Type 0
  Leaf c n r = Unmoved c r.1 × (NodeIn (length c.nodes) n → NodeIn (length c.nodes) r.0)

  pub set_types-Leaf :
      (loc : Bytes) (v : Value) (n : Node F D) (c : Compiler F D) → Leaf c n (set_types loc v n c)
  unfolding set_types
  set_types-Leaf loc v n c = ground (arith, type_set-Unmoved c loc v)

  counted_u64-Unmoved :
      (c : Compiler F D) (loc key : Bytes) (x : Option ℕ) → Unmoved c (counted_u64 loc key x c).1
  unfolding note
  counted_u64-Unmoved c loc key none = (refl, refl, refl)
  counted_u64-Unmoved c loc key (some x) = (refl, refl, refl)

  pub u64_at-Unmoved :
      (v : Value) (loc key : Bytes) (c : Compiler F D) → Unmoved c (u64_at v loc key c).1
  unfolding u64_at note
  u64_at-Unmoved (Value.number num) loc key c = counted_u64-Unmoved c loc key (parse_usize num.text)
  u64_at-Unmoved _ loc key c = (refl, refl, refl)

  counted_f64-Unmoved :
      (c : Compiler F D) (loc key : Bytes) (x : Option F) → Unmoved c (counted_f64 loc key x c).1
  unfolding note
  counted_f64-Unmoved c loc key none = (refl, refl, refl)
  counted_f64-Unmoved c loc key (some x) = (refl, refl, refl)

  pub f64_at-Unmoved :
      (floats : Floats F) (v : Value) (loc key : Bytes) (c : Compiler F D)
      → Unmoved c (f64_at floats v loc key c).1
  unfolding f64_at note
  f64_at-Unmoved floats (Value.number num) loc key c =
      counted_f64-Unmoved c loc key (floats.parse num.text)
  f64_at-Unmoved floats _ loc key c = (refl, refl, refl)

  pub set_unique-Leaf : (v : Value) (n : Node F D) (c : Compiler F D) → Leaf c n (set_unique v n c)
  unfolding set_unique
  set_unique-Leaf (Value.bool b) n c = ground arith
  set_unique-Leaf _ n c = ground arith

  with_pattern-Leaf :
      (loc : Bytes) (p : Option (Pattern D)) (n : Node F D) (c : Compiler F D)
      → Leaf c n (with_pattern loc p n c)
  unfolding note
  with_pattern-Leaf loc none n c = ground arith
  with_pattern-Leaf loc (some p) n c = ground arith

  pub set_pattern-Leaf :
      {S : Type 0} (ops : Dfa D S) (loc : Bytes) (v : Value) (n : Node F D) (c : Compiler F D)
      → Leaf c n (set_pattern ops loc v n c)
  unfolding set_pattern
  set_pattern-Leaf ops loc (Value.string p) n c = with_pattern-Leaf loc (Patterns.compile ops p) n c
  set_pattern-Leaf ops loc _ n c = ground arith

  pub set_enum-Leaf : (v : Value) (n : Node F D) (c : Compiler F D) → Leaf c n (set_enum v n c)
  unfolding set_enum
  set_enum-Leaf (Value.array items) n c = (
    (refl, refl, refl),
    λ h. record {
      items = h.items;
      prefix_items = h.prefix_items;
      properties = h.properties;
      additional = h.additional;
      all_of = h.all_of;
      any_of = h.any_of;
      one_of = h.one_of;
      not_node = h.not_node;
      enumeration = (string_items items, has_other items, refl);
    },
  )
  set_enum-Leaf _ n c = ground arith

  pub set_required-Leaf :
      (v : Value) (n : Node F D) (c : Compiler F D) → Leaf c n (set_required v n c)
  unfolding set_required
  set_required-Leaf (Value.array items) n c = ground arith
  set_required-Leaf _ n c = ground arith
