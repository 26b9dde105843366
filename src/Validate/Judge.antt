-- ===== src/Validate/Judge.antt =====
-- src/validate.rs: the checks of containers and combinators, and the judgement of a value against a
-- node. A schema is a graph, so `judge` runs on fuel; it is `none` when the fuel is spent.
use jawohl.Prelude.{
  ℕ, zero, suc, Bool, true, false, not, ◌||◌, List, [], ◌∷◌, ◌++◌, map, Option, none, some,
  if◌then◌else◌, ltb, leb, ◌==◌, Bytes, bytes_eq, get_elem?,
}
use jawohl.Value.{Value, Values, Members, array, object, nil, cons, end, member, items_len}
use jawohl.Event.{Validation, pending, valid_so_far, valid, irrecoverably_invalid}
use jawohl.Schema.Pattern.{Dfa}
use jawohl.Schema.Node.{NodeId, AdditionalProperties, Node}
use jawohl.Validate.Verdict.{fold, is_failure, ok_or_invalid, at_least}
use jawohl.Validate.Scalars.{option_part, over, value_eq, check_enum_and_const, check_string}
use jawohl.Validate.Numbers.{Floats, NumberProfile, check_number, check_type}

-- The judgement of the nodes below.
abbrev pub Rec : Type 0
Rec = NodeId → Value → Bool → Option Validation

abbrev pub both {ℓ} :
    {A B : Type ℓ} → (A → List B → List B) → Option A → Option (List B) → Option (List B)
both f none ys = none
both f (some x) none = none
both f (some x) (some ys) = some (f x ys)

-- The verdicts, in order.
unfoldable pub collect : List (Option Validation) → Option (List Validation)
collect [] = some []
collect (x ∷ xs) = both (λ v vs. v ∷ vs) x (collect xs)

abbrev pub fold_all : List Validation → Option (List Validation) → Option Validation
fold_all parts none = none
fold_all parts (some more) = some (fold (parts ++ more))

-- `seen.contains(&it)`
unfoldable pub holds_value : Value → Values → Bool
holds_value v nil = false
holds_value v (cons x xs) = value_eq x v || holds_value v xs

-- The loop over the items, with those that were seen.
unfoldable pub has_duplicate : Values → Values → Bool
unfolding holds_value
has_duplicate seen nil = false
has_duplicate seen (cons x xs) = holds_value x seen || has_duplicate (cons x seen) xs

unfoldable pub members_len : Members → ℕ
members_len end = 0
members_len (member k v ms) = suc (members_len ms)

unfoldable pub has_key : Bytes → Members → Bool
has_key k end = false
has_key k (member j v ms) = bytes_eq j k || has_key k ms

-- `BTreeMap::get`
unfoldable pub property : Bytes → List (Bytes × NodeId) → Option NodeId
property k [] = none
property k ((j, id) ∷ ps) = if bytes_eq j k then some id else property k ps

abbrev is_last : Values → Bool
is_last nil = true
is_last (cons _ _) = false

abbrev is_last_member : Members → Bool
is_last_member end = true
is_last_member (member _ _ _) = false

-- `get(i)`, or else the other.
abbrev pub or_node : Option NodeId → Option NodeId → Option NodeId
or_node none other = other
or_node (some id) other = some id

abbrev pub any_step : Option Validation → Option Bool → Option Bool
any_step none rest = none
any_step (some verdict) rest = if not (is_failure verdict) then some true else rest

abbrev pub hit_step : Option Validation → Option ℕ → Option ℕ
hit_step none rest = none
hit_step (some verdict) none = none
hit_step (some verdict) (some n) = if not (is_failure verdict) then some (suc n) else some n

abbrev pub verdict_of : Option Bool → Option Validation
verdict_of none = none
verdict_of (some ok) = some (ok_or_invalid ok)

abbrev pub is_one : Option ℕ → Option Bool
is_one none = none
is_one (some n) = some (n == 1)

abbrev pub fails : Option Validation → Option Bool
fails none = none
fails (some verdict) = some (is_failure verdict)

-- At completion alone.
abbrev pub at_completion : Bool → Option Bool → List (Option Validation)
at_completion complete ok = (if not complete then some pending else verdict_of ok) ∷ []

module _ (rec : Rec) where
  abbrev pub judge_by : Option NodeId → Value → Bool → List (Option Validation)
  judge_by none v complete = []
  judge_by (some id) v complete = rec id v complete ∷ []

  -- The items from the `i`-th on; an item that another follows is complete.
  unfoldable pub item_parts :
      List NodeId → Option NodeId → Bool → ℕ → Values → List (Option Validation)
  item_parts prefix_items items complete i nil = []
  item_parts prefix_items items complete i (cons v vs) =
      judge_by (or_node (get_elem? prefix_items i) items) v (complete || not (is_last vs))
      ++ item_parts prefix_items items complete (suc i) vs

  abbrev pub additional_part : AdditionalProperties → Value → Bool → List (Option Validation)
  additional_part AdditionalProperties.permitted v complete = []
  additional_part AdditionalProperties.forbidden v complete = some irrecoverably_invalid ∷ []
  additional_part (AdditionalProperties.schema id) v complete = rec id v complete ∷ []

  abbrev pub member_part :
      Option NodeId → AdditionalProperties → Value → Bool → List (Option Validation)
  member_part none additional v complete = additional_part additional v complete
  member_part (some id) additional v complete = rec id v complete ∷ []

  unfoldable pub member_parts :
      List (Bytes × NodeId) → AdditionalProperties → Bool → Members → List (Option Validation)
  unfolding property
  member_parts properties additional complete end = []
  member_parts properties additional complete (member k v ms) =
      member_part (property k properties) additional v (complete || not (is_last_member ms))
      ++ member_parts properties additional complete ms

  -- `any(|b| !judge(b).is_failure())`: the first that is no failure ends it.
  unfoldable pub any_holds : List NodeId → Value → Option Bool
  any_holds [] v = some false
  any_holds (id ∷ ids) v = any_step (rec id v true) (any_holds ids v)

  -- `filter(..).count()`
  unfoldable pub hits : List NodeId → Value → Option ℕ
  hits [] v = some 0
  hits (id ∷ ids) v = hit_step (rec id v true) (hits ids v)

  abbrev pub any_of_part : List NodeId → Value → Bool → List (Option Validation)
  any_of_part [] v complete = []
  any_of_part (id ∷ ids) v complete = at_completion complete (any_holds (id ∷ ids) v)

  abbrev pub one_of_part : List NodeId → Value → Bool → List (Option Validation)
  one_of_part [] v complete = []
  one_of_part (id ∷ ids) v complete = at_completion complete (is_one (hits (id ∷ ids) v))

  abbrev pub not_part : Option NodeId → Value → Bool → List (Option Validation)
  not_part none v complete = []
  not_part (some id) v complete = at_completion complete (fails (rec id v true))

  module _ {F D : Type 0} where
    unfoldable pub check_array : Node F D → Value → Bool → Option Validation
    unfolding item_parts has_duplicate collect
    check_array n (array items) complete =
        let len = items_len items in
        fold_all
          (option_part n.max_items (λ max. over (ltb max len))
            ++ option_part n.min_items (λ min. at_least (leb min len) complete ∷ [])
            ++ (if n.unique_items then over (has_duplicate nil items) else []))
          (collect (item_parts n.prefix_items n.items complete 0 items))
    check_array n _ complete = some valid_so_far

    unfoldable pub check_object : Node F D → Value → Bool → Option Validation
    unfolding member_parts members_len has_key collect
    check_object n (object members) complete =
        let count = members_len members in
        fold_all
          (option_part n.max_properties (λ max. over (ltb max count))
            ++ option_part n.min_properties (λ min. at_least (leb min count) complete ∷ [])
            ++ map (λ req. at_least (has_key req members) complete) n.required)
          (collect (member_parts n.properties n.additional_properties complete members))
    check_object n _ complete = some valid_so_far

    unfoldable pub check_combinators : Node F D → Value → Bool → Option Validation
    unfolding any_holds hits collect
    check_combinators n value complete = fold_all [] (
        collect (
          map (λ id. rec id value complete) n.all_of
          ++ any_of_part n.any_of value complete
          ++ one_of_part n.one_of value complete
          ++ not_part n.not_node value complete))

-- `Valid` is only reachable once the value is whole.
abbrev pub promote : Bool → Validation → Validation
promote true valid_so_far = valid
promote _ other = other

abbrev pub promote_all : Bool → Option Validation → Option Validation
promote_all complete none = none
promote_all complete (some folded) = some (promote complete folded)

module _ {F D S : Type 0} (floats : Floats F) (ops : Dfa D S) (profile : NumberProfile)
    (nodes : List (Node F D)) where
  abbrev pub judge_checks : Rec → Node F D → Value → Bool → Option Validation
  judge_checks rec n value complete = promote_all complete (
      fold_all
        (check_type floats n value complete
          ∷ check_enum_and_const n value complete
          ∷ check_string ops n value complete
          ∷ check_number floats profile n value complete
          ∷ [])
        (collect (
          check_array rec n value complete
          ∷ check_object rec n value complete
          ∷ check_combinators rec n value complete
          ∷ [])))

  abbrev pub judge_node : Rec → Option (Node F D) → Value → Bool → Option Validation
  judge_node rec none value complete = none
  judge_node rec (some n) value complete = elim n.boolean [
    | some true ↦ some (if complete then valid else valid_so_far)
    | some false ↦ some irrecoverably_invalid
    | none ↦ judge_checks rec n value complete
  ]

  unfoldable pub judge : ℕ → NodeId → Value → Bool → Option Validation
  unfolding check_array check_object check_combinators collect
  judge zero node value complete = none
  judge (suc fuel) node value complete =
      judge_node (judge fuel) (get_elem? nodes node) value complete
