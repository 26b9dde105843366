-- ===== src/Schema/Compile/Accounted.antt =====
-- src/schema/compile.rs: the members of a schema against what the lowering report says of them.
pub mod Types
pub mod Keywords
pub mod Documents
use jawohl.Prelude.{
  ℕ, suc, ◌||◌, ◌+◌, ◌≤◌, ◌≡◌, Bool, true, false, List, arith, ◌∷◌, ◌++◌, [], Bytes, codes, Option,
  none, some, if◌then◌else◌,
}
use jawohl.Pointer.{decimal, parse_usize}
use jawohl.Value.{Value, Values, Members, nil, cons, end, member, find_member}
use jawohl.Schema.Keyword.{Keyword, keyword_of}
use jawohl.Schema.Node.{TypeSet, from_name}
use jawohl.Schema.Pattern.{Dfa, Pattern}
use jawohl.Schema.Pattern as Patterns
use jawohl.Schema.Report.{
  Reason, Unsupported, LoweringReport, unknown_type, expected_type_names, expected_number,
  expected_natural, not_representable, unanchored, bad_regex,
}
use jawohl.Schema.Compile.State.{Compiler, count, note}
use jawohl.Validate.Numbers.{Floats}

-- A string under `$ref`, which stands for the whole object.
abbrev pub is_ref : Option Value → Bool
is_ref (some (Value.string s)) = true
is_ref _ = false

abbrev pub is_known : Option TypeSet → Bool
is_known (some t) = true
is_known none = false

-- A name of the list is the name of a type.
abbrev pub has_known : Values → Bool
has_known nil = false
has_known (cons (Value.string s) vs) = is_known (from_name s) || has_known vs
has_known (cons _ vs) = has_known vs

-- A keyword that is enforced is owed `one`, and one that is not is owed an entry of the report, of the
-- weight that `entry` gives it.
module _ {F D S : Type 0} (floats : Floats F) (ops : Dfa D S) (one : ℕ)
    (entry : Unsupported → ℕ) where
  abbrev pub due : Bytes → Bytes → Reason → ℕ
  due loc key why = entry (record { location = loc; keyword = key; reason = why })

  abbrev pub of_name : ℕ → Bytes → Bytes → Option TypeSet → ℕ
  of_name found loc name (some t) = found
  of_name found loc name none = due loc (codes "type") (unknown_type name)

  abbrev pub unknown : Bytes → Values → ℕ
  unknown loc nil = 0
  unknown loc (cons (Value.string s) vs) = of_name 0 loc s (from_name s) + unknown loc vs
  unknown loc (cons _ vs) = unknown loc vs

  -- Some name is known, and each of the others is reported.
  abbrev pub of_types : Bytes → Value → ℕ
  of_types loc (Value.string s) = of_name one loc s (from_name s)
  of_types loc (Value.array vs) = unknown loc vs + (if has_known vs then one else 0)
  of_types loc _ = due loc (codes "type") expected_type_names

  abbrev pub of_read : {A : Type 0} → Bytes → Bytes → Reason → Option A → ℕ
  of_read loc key why (some x) = one
  of_read loc key why none = due loc key why

  abbrev pub of_natural : Bytes → Bytes → Value → ℕ
  of_natural loc key (Value.number num) = of_read loc key expected_natural (parse_usize num.text)
  of_natural loc key _ = due loc key expected_number

  abbrev pub of_float : Bytes → Bytes → Value → ℕ
  of_float loc key (Value.number num) = of_read loc key not_representable (floats.parse num.text)
  of_float loc key _ = due loc key expected_number

  -- A pattern that cannot reject early is enforced, and reported.
  abbrev pub of_regex : Bytes → Option (Pattern D) → ℕ
  of_regex loc none = due loc (codes "pattern") bad_regex
  of_regex loc (some p) =
      one + (if p.supports_early_rejection then 0 else due loc (codes "pattern") unanchored)

  abbrev pub of_pattern : Bytes → Value → ℕ
  of_pattern loc (Value.string p) = of_regex loc (Patterns.compile ops p)
  of_pattern loc _ = 0

  abbrev pub of_bool : Value → ℕ
  of_bool (Value.bool b) = one
  of_bool _ = 0

  abbrev pub of_array : Value → ℕ → ℕ
  of_array (Value.array vs) inner = one + inner
  of_array _ inner = 0

  abbrev pub of_object : Value → ℕ → ℕ
  of_object (Value.object ms) inner = one + inner
  of_object _ inner = 0

  abbrev pub of_additional : Value → ℕ → ℕ
  of_additional (Value.bool b) inner = one
  of_additional _ inner = one + inner

  -- What one keyword is owed, with what the schemas below it are owed: as one schema, as a list of
  -- them, as a map of them.
  unfoldable pub owed : Keyword → Bytes → Bytes → Value → ℕ → ℕ → ℕ → ℕ
  owed Keyword.types key loc v schema list map = of_types loc v
  owed Keyword.min_length key loc v schema list map = of_natural loc key v
  owed Keyword.max_length key loc v schema list map = of_natural loc key v
  owed Keyword.min_items key loc v schema list map = of_natural loc key v
  owed Keyword.max_items key loc v schema list map = of_natural loc key v
  owed Keyword.min_properties key loc v schema list map = of_natural loc key v
  owed Keyword.max_properties key loc v schema list map = of_natural loc key v
  owed Keyword.minimum key loc v schema list map = of_float loc key v
  owed Keyword.maximum key loc v schema list map = of_float loc key v
  owed Keyword.exclusive_minimum key loc v schema list map = of_float loc key v
  owed Keyword.exclusive_maximum key loc v schema list map = of_float loc key v
  owed Keyword.multiple_of key loc v schema list map = of_float loc key v
  owed Keyword.unique_items key loc v schema list map = of_bool v
  owed Keyword.pattern key loc v schema list map = of_pattern loc v
  owed Keyword.enumeration key loc v schema list map = of_array v 0
  owed Keyword.const_value key loc v schema list map = one
  owed Keyword.required key loc v schema list map = of_array v 0
  owed Keyword.properties key loc v schema list map = of_object v map
  owed Keyword.additional_properties key loc v schema list map = of_additional v schema
  owed Keyword.items key loc v schema list map = one + schema
  owed Keyword.prefix_items key loc v schema list map = of_array v list
  owed Keyword.all_of key loc v schema list map = of_array v list
  owed Keyword.any_of key loc v schema list map = of_array v list
  owed Keyword.one_of key loc v schema list map = of_array v list
  owed Keyword.not_schema key loc v schema list map = one + schema
  owed Keyword.definitions key loc v schema list map = 0
  owed Keyword.annotation key loc v schema list map = 0
  owed (Keyword.deferred why) key loc v schema list map = due loc key why
  owed Keyword.unrecognised key loc v schema list map = due loc key Reason.unrecognised

  -- What a schema at a location is owed, with every schema below it, references not followed.
  unfoldable mutual
    unfolding owed

    pub obligations : Value → Bytes → ℕ
    obligations (Value.bool b) at = one
    obligations (Value.object ms) at =
        let own = of_keys ms at in if is_ref (find_member (codes "$ref") ms) then 0 else own
    obligations _ at = 0

    pub listed : Value → Bytes → ℕ
    listed (Value.array vs) loc = of_items vs loc 0
    listed _ loc = 0

    pub mapped : Value → Bytes → ℕ
    mapped (Value.object ms) loc = of_members ms loc
    mapped _ loc = 0

    pub of_items : Values → Bytes → ℕ → ℕ
    of_items nil loc i = 0
    of_items (cons v vs) loc i = obligations v (loc ++ b'/' ∷ decimal i) + of_items vs loc (suc i)

    pub of_members : Members → Bytes → ℕ
    of_members end loc = 0
    of_members (member name v ms) loc = obligations v (loc ++ b'/' ∷ name) + of_members ms loc

    pub of_keys : Members → Bytes → ℕ
    of_keys end at = 0
    of_keys (member key v ms) at =
        let loc = at ++ b'/' ∷ key in
        owed (keyword_of key) key loc v (obligations v loc) (listed v loc) (mapped v loc)
        + of_keys ms at

-- The weights of some entries, added up.
unfoldable pub weight : (Unsupported → ℕ) → List Unsupported → ℕ
weight entry [] = 0
weight entry (u ∷ us) = entry u + weight entry us

weight-push :
    (entry : Unsupported → ℕ) (us : List Unsupported) (u : Unsupported)
    → weight entry (us ++ u ∷ []) ≡ weight entry us + entry u
unfolding weight
weight-push entry [] u = omega arith
weight-push entry (x ∷ us) u = omega (arith, weight-push entry us u)

-- How a report is measured: what the count of the enforced keywords is worth, and each entry.
pub record Scale : Type 0 where
  pub one : ℕ
  pub tally : ℕ → ℕ
  pub counted : (n : ℕ) → tally (n + 1) ≡ tally n + one
  pub entry : Unsupported → ℕ

abbrev pub measure : Scale → LoweringReport → ℕ
measure s r = s.tally r.compiled + weight s.entry r.unsupported

module _ {F D : Type 0} (s : Scale) where
  -- The report of `d` measures at least `k` more than that of `c`.
  abbrev pub More : ℕ → Compiler F D → Compiler F D → Type 0
  More k c d = measure s c.report + k ≤ measure s d.report

  pub note-More :
      (loc key : Bytes) (why : Reason) (c : Compiler F D)
      → measure s (note loc key why c).report
        ≡ measure s c.report + s.entry (record { location = loc; keyword = key; reason = why })
  unfolding note
  note-More loc key why c = omega (
    arith,
    weight-push s.entry c.report.unsupported
        (record { location = loc; keyword = key; reason = why }),
  )

  pub count-More : (c : Compiler F D) → measure s (count c).report ≡ measure s c.report + s.one
  count-More c = omega (arith, s.counted c.report.compiled)
