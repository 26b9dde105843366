-- ===== src/Schema/Node.antt =====
-- src/schema/mod.rs: a node of a compiled schema. `F` stands for the floating-point numbers of the
-- numeric bounds, and `D` for the automata of the patterns.
use jawohl.Prelude.{
  ℕ, Bool, true, false, not, ◌&&◌, ◌||◌, List, [], Option, none, some, Bytes, codes, bytes_eq,
  if◌then◌else◌,
}
use jawohl.Value.{Value}
use jawohl.Schema.Trie.{EnumTrie}
use jawohl.Schema.Pattern.{Pattern}

-- The bits of the set.
pub record TypeSet : Type 0 where
  pub null : Bool
  pub boolean : Bool
  pub object : Bool
  pub array : Bool
  pub number : Bool
  pub integer : Bool
  pub string : Bool

abbrev pub no_type : TypeSet
no_type = record {
  null = false;
  boolean = false;
  object = false;
  array = false;
  number = false;
  integer = false;
  string = false;
}

-- `self.0 | other.0`
unfoldable pub union : TypeSet → TypeSet → TypeSet
union a b = record {
  null = a.null || b.null;
  boolean = a.boolean || b.boolean;
  object = a.object || b.object;
  array = a.array || b.array;
  number = a.number || b.number;
  integer = a.integer || b.integer;
  string = a.string || b.string;
}

-- `self.0 == 0`
unfoldable pub is_empty : TypeSet → Bool
is_empty a = not (a.null || a.boolean || a.object || a.array || a.number || a.integer || a.string)

unfoldable pub from_name : Bytes → Option TypeSet
from_name name =
    if bytes_eq name (codes "null")
    then some (record no_type { null = true })
    else if bytes_eq name (codes "boolean")
    then some (record no_type { boolean = true })
    else if bytes_eq name (codes "object")
    then some (record no_type { object = true })
    else if bytes_eq name (codes "array")
    then some (record no_type { array = true })
    else if bytes_eq name (codes "number")
    then some (record no_type { number = true; integer = true })
    else if bytes_eq name (codes "integer")
    then some (record no_type { integer = true })
    else if bytes_eq name (codes "string")
    then some (record no_type { string = true })
    else none

-- `self.0 & other.0 != 0`
unfoldable pub shares : TypeSet → TypeSet → Bool
shares a b =
    a.null && b.null
    || a.boolean && b.boolean
    || a.object && b.object
    || a.array && b.array
    || a.number && b.number
    || a.integer && b.integer
    || a.string && b.string

-- An index into the arena.
abbrev pub NodeId : Type 0
NodeId = ℕ

pub data AdditionalProperties : Type 0 where
  permitted forbidden : AdditionalProperties
  schema : NodeId → AdditionalProperties

pub record Node (F D : Type 0) : Type 0 where
  pub boolean : Option Bool
  pub types : Option TypeSet
  pub min_length : Option ℕ
  pub max_length : Option ℕ
  pub pattern : Option (Pattern D)
  pub minimum : Option F
  pub maximum : Option F
  pub exclusive_minimum : Option F
  pub exclusive_maximum : Option F
  pub multiple_of : Option F
  pub min_items : Option ℕ
  pub max_items : Option ℕ
  pub unique_items : Bool
  pub items : Option NodeId
  pub prefix_items : List NodeId
  pub properties : List (Bytes × NodeId)
  pub required : List Bytes
  pub additional_properties : AdditionalProperties
  pub min_properties : Option ℕ
  pub max_properties : Option ℕ
  pub enumeration : Option EnumTrie
  pub const_value : Option Value
  pub all_of : List NodeId
  pub any_of : List NodeId
  pub one_of : List NodeId
  pub not_node : Option NodeId

-- `Node::default()`, which accepts anything.
abbrev pub permissive : {F D : Type 0} → Node F D
permissive = record {
  boolean = none;
  types = none;
  min_length = none;
  max_length = none;
  pattern = none;
  minimum = none;
  maximum = none;
  exclusive_minimum = none;
  exclusive_maximum = none;
  multiple_of = none;
  min_items = none;
  max_items = none;
  unique_items = false;
  items = none;
  prefix_items = [];
  properties = [];
  required = [];
  additional_properties = AdditionalProperties.permitted;
  min_properties = none;
  max_properties = none;
  enumeration = none;
  const_value = none;
  all_of = [];
  any_of = [];
  one_of = [];
  not_node = none;
}
