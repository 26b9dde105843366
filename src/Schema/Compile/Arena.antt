-- ===== src/Schema/Compile/Arena.antt =====
-- The references of the arena of src/schema/compile.rs, and the tries of its nodes.
pub mod Leaves
pub mod Keywords
pub mod Nodes
use jawohl.Prelude.{
  ℕ, zero, suc, ◌+◌, ◌≤◌, ◌<◌, ◌≡◌, refl, List, [], ◌∷◌, ◌++◌, Option, none, some, arith, length,
  Bytes, set, insert, remove, lookup, bytes_eq, if◌then◌else◌,
}
use jawohl.Schema.Node.{
  NodeId, AdditionalProperties, permitted, forbidden, schema, Node, permissive,
}
use jawohl.Schema.Compile.State.{Compiler}
use jawohl.Validate.Early.Strings.{IsBuilt}

abbrev pub IdsIn : ℕ → List NodeId → Type 0
IdsIn k [] = Unit
IdsIn k (id ∷ ids) = (id < k) × IdsIn k ids

abbrev pub EntriesIn : ℕ → List (Bytes × NodeId) → Type 0
EntriesIn k [] = Unit
EntriesIn k ((name, id) ∷ es) = (id < k) × EntriesIn k es

abbrev pub OptionIn : ℕ → Option NodeId → Type 0
OptionIn k none = Unit
OptionIn k (some id) = id < k

abbrev pub AdditionalIn : ℕ → AdditionalProperties → Type 0
AdditionalIn k permitted = Unit
AdditionalIn k forbidden = Unit
AdditionalIn k (schema id) = id < k

module _ {F D : Type 0} where
  -- The node refers to the first `k` nodes, and its trie was built of members.
  pub record NodeIn (k : ℕ) (n : Node F D) : Type 0 where
    pub items : OptionIn k n.items
    pub prefix_items : IdsIn k n.prefix_items
    pub properties : EntriesIn k n.properties
    pub additional : AdditionalIn k n.additional_properties
    pub all_of : IdsIn k n.all_of
    pub any_of : IdsIn k n.any_of
    pub one_of : IdsIn k n.one_of
    pub not_node : OptionIn k n.not_node
    pub enumeration : IsBuilt n.enumeration

  abbrev pub NodesIn : ℕ → List (Node F D) → Type 0
  NodesIn k [] = Unit
  NodesIn k (n ∷ ns) = NodeIn k n × NodesIn k ns

  pub record IsSound (c : Compiler F D) : Type 0 where
    pub nodes : NodesIn (length c.nodes) c.nodes
    pub progress : EntriesIn (length c.nodes) c.in_progress

  -- `d` is sound, and has at least the nodes of `c`.
  abbrev pub Grown : Compiler F D → Compiler F D → Type 0
  Grown c d = IsSound d × (length c.nodes ≤ length d.nodes)

pub IdsIn-mono : (j k : ℕ) (ids : List NodeId) → j ≤ k → IdsIn j ids → IdsIn k ids
IdsIn-mono j k [] l h = tt
IdsIn-mono j k (id ∷ ids) l h = (omega arith, IdsIn-mono j k ids l h.1)

pub EntriesIn-mono :
    (j k : ℕ) (es : List (Bytes × NodeId)) → j ≤ k → EntriesIn j es → EntriesIn k es
EntriesIn-mono j k [] l h = tt
EntriesIn-mono j k ((name, id) ∷ es) l h = (omega arith, EntriesIn-mono j k es l h.1)

OptionIn-mono : (j k : ℕ) (o : Option NodeId) → j ≤ k → OptionIn j o → OptionIn k o
OptionIn-mono j k none l h = tt
OptionIn-mono j k (some id) l h = omega arith

AdditionalIn-mono :
    (j k : ℕ) (a : AdditionalProperties) → j ≤ k → AdditionalIn j a → AdditionalIn k a
AdditionalIn-mono j k permitted l h = tt
AdditionalIn-mono j k forbidden l h = tt
AdditionalIn-mono j k (schema id) l h = omega arith

pub IdsIn-append : (k : ℕ) (xs ys : List NodeId) → IdsIn k xs → IdsIn k ys → IdsIn k (xs ++ ys)
IdsIn-append k [] ys h i = i
IdsIn-append k (x ∷ xs) ys h i = (h.0, IdsIn-append k xs ys h.1 i)

pub EntriesIn-insert :
    (k : ℕ) (name : Bytes) (id : NodeId) (es : List (Bytes × NodeId))
    → id < k
    → EntriesIn k es
    → EntriesIn k (insert name id es)
unfolding insert
EntriesIn-insert k name id [] l h = (l, tt)
EntriesIn-insert k name id ((j, i) ∷ es) l h = ground (arith, EntriesIn-insert k name id es)

pub EntriesIn-remove :
    (k : ℕ) (name : Bytes) (es : List (Bytes × NodeId))
    → EntriesIn k es
    → EntriesIn k (remove name es)
unfolding remove
EntriesIn-remove k name [] h = tt
EntriesIn-remove k name ((j, i) ∷ es) h = ground (arith, EntriesIn-remove k name es)

pub EntriesIn-lookup :
    (k : ℕ) (name : Bytes) (es : List (Bytes × NodeId))
    → EntriesIn k es
    → OptionIn k (lookup name es)
unfolding lookup
EntriesIn-lookup k name [] h = tt
EntriesIn-lookup k name ((j, i) ∷ es) h = ground (arith, EntriesIn-lookup k name es)

module _ {F D : Type 0} where
  pub NodeIn-mono : (j k : ℕ) (n : Node F D) → j ≤ k → NodeIn j n → NodeIn k n
  NodeIn-mono j k n l h = record {
    items = OptionIn-mono j k n.items l h.items;
    prefix_items = IdsIn-mono j k n.prefix_items l h.prefix_items;
    properties = EntriesIn-mono j k n.properties l h.properties;
    additional = AdditionalIn-mono j k n.additional_properties l h.additional;
    all_of = IdsIn-mono j k n.all_of l h.all_of;
    any_of = IdsIn-mono j k n.any_of l h.any_of;
    one_of = IdsIn-mono j k n.one_of l h.one_of;
    not_node = OptionIn-mono j k n.not_node l h.not_node;
    enumeration = h.enumeration;
  }

  pub NodesIn-mono : (j k : ℕ) (ns : List (Node F D)) → j ≤ k → NodesIn j ns → NodesIn k ns
  NodesIn-mono j k [] l h = tt
  NodesIn-mono j k (n ∷ ns) l h = (NodeIn-mono j k n l h.0, NodesIn-mono j k ns l h.1)

  pub NodesIn-push :
      (k : ℕ) (ns : List (Node F D)) (n : Node F D)
      → NodesIn k ns
      → NodeIn k n
      → NodesIn k (ns ++ n ∷ [])
  NodesIn-push k [] n h i = (i, tt)
  NodesIn-push k (m ∷ ns) n h i = (h.0, NodesIn-push k ns n h.1 i)

  pub NodesIn-set :
      (k : ℕ) (ns : List (Node F D)) (i : ℕ) (n : Node F D)
      → NodesIn k ns
      → NodeIn k n
      → NodesIn k (set ns i n)
  unfolding set
  NodesIn-set k [] i n h m = tt
  NodesIn-set k (x ∷ ns) zero n h m = (m, h.1)
  NodesIn-set k (x ∷ ns) (suc i) n h m = (h.0, NodesIn-set k ns i n h.1 m)

  pub permissive-NodeIn : (k : ℕ) → NodeIn {F = F} {D = D} k permissive
  permissive-NodeIn k = record {
    items = tt;
    prefix_items = tt;
    properties = tt;
    additional = tt;
    all_of = tt;
    any_of = tt;
    one_of = tt;
    not_node = tt;
    enumeration = tt;
  }

pub length-set : {A : Type 0} (xs : List A) (i : ℕ) (x : A) → length (set xs i x) ≡ length xs
unfolding set
length-set [] i x = refl
length-set (y ∷ xs) zero x = refl
length-set (y ∷ xs) (suc i) x = omega (arith, length-set xs i x)
