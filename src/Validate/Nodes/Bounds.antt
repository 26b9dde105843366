-- ===== src/Validate/Nodes/Bounds.antt =====
-- The walk of `node_for` in the arena of a compiled schema.
use jawohl.Prelude.{
  ℕ, suc, zero, ◌<◌, ◌≡◌, refl, List, [], ◌∷◌, Option, none, some, arith, length, Bytes, get_elem?,
}
use jawohl.Pointer.{parse_usize}
use jawohl.Schema.Node.{NodeId, AdditionalProperties, Node}
use jawohl.Schema.Pattern.{Dfa}
use jawohl.Schema.Report.{Schema}
use jawohl.Schema.Compile.Entry.{Compiled, compile}
use jawohl.Schema.Compile.Arena.{IdsIn, OptionIn, AdditionalIn, EntriesIn-lookup, NodeIn, NodesIn}
use jawohl.Schema.Compile.Arena.Nodes.{compile-IsClosed}
use jawohl.Validate.Numbers.{Floats}
use jawohl.Validate.Judge.{or_node}
use jawohl.Validate.Nodes.{node_of_token, additional_node, next_node, visit, step_from, node_for}

or_node-In : (k : ℕ) (a b : Option NodeId) → OptionIn k a → OptionIn k b → OptionIn k (or_node a b)
or_node-In k none b h i = i
or_node-In k (some id) b h i = h

get_elem-In : (k : ℕ) (ids : List NodeId) (i : ℕ) → IdsIn k ids → OptionIn k (get_elem? ids i)
unfolding get_elem?
get_elem-In k [] i h = tt
get_elem-In k (id ∷ ids) zero h = h.0
get_elem-In k (id ∷ ids) (suc i) h = get_elem-In k ids i h.1

additional_node-In :
    (k : ℕ) (a : AdditionalProperties) → AdditionalIn k a → OptionIn k (additional_node a)
additional_node-In k AdditionalProperties.permitted h = tt
additional_node-In k AdditionalProperties.forbidden h = tt
additional_node-In k (AdditionalProperties.schema id) h = h

module _ {F D : Type 0} (k : ℕ) where
  node_of_token-In :
      (token : Bytes) (i : Option ℕ) (n : Node F D)
      → NodeIn k n
      → OptionIn k (node_of_token token i n)
  node_of_token-In token (some i) n h =
      or_node-In k _ n.items (get_elem-In k n.prefix_items i h.prefix_items) h.items
  node_of_token-In token none n h =
      or_node-In k _ _ (EntriesIn-lookup k token n.properties h.properties)
        (additional_node-In k n.additional_properties h.additional)

  next_node-In : (token : Bytes) (n : Node F D) → NodeIn k n → OptionIn k (next_node token n)
  unfolding next_node
  next_node-In token n h = node_of_token-In token (parse_usize token) n h

  -- The node at an index, and that it is in the arena.
  abbrev There : Option (Node F D) → Type 0
  There none = ⊥
  There (some n) = NodeIn k n

  get_elem-There :
      (ns : List (Node F D)) (i : ℕ) → NodesIn k ns → i < length ns → There (get_elem? ns i)
  unfolding get_elem?
  get_elem-There [] i h l = absurd (omega arith)
  get_elem-There (n ∷ ns) zero h l = h.0
  get_elem-There (n ∷ ns) (suc i) h l = get_elem-There ns i h.1 (omega arith)

module _ {F D : Type 0} (nodes : List (Node F D)) (closed : NodesIn (length nodes) nodes) where
  -- The walk did not leave the arena.
  abbrev Found : Option (Option NodeId) → Type 0
  Found none = ⊥
  Found (some o) = OptionIn (length nodes) o

  visit-Found :
      (go : NodeId → Option (Option NodeId))
      → ((id : NodeId) → id < length nodes → Found (go id))
      → (next : Option NodeId) → OptionIn (length nodes) next
      → Found (visit go next)
  visit-Found go found none h = tt
  visit-Found go found (some id) h = found id h

  step_from-Found :
      (go : NodeId → Option (Option NodeId))
      → ((id : NodeId) → id < length nodes → Found (go id))
      → (t : Bytes) (n : Option (Node F D)) → There (length nodes) n
      → Found (step_from go t n)
  step_from-Found go found t none h = absurd h
  step_from-Found go found t (some n) h =
      visit-Found go found (next_node t n) (next_node-In (length nodes) t n h)

  node_for-Found :
      (tokens : List Bytes) (cur : NodeId) → cur < length nodes → Found (node_for nodes tokens cur)
  unfolding node_for
  node_for-Found [] cur l = l
  node_for-Found (t ∷ ts) cur l =
      step_from-Found (λ next. node_for nodes ts next) (node_for-Found ts) t (get_elem? nodes cur)
        (get_elem-There (length nodes) nodes cur closed l)

  Found-some :
      (o : Option (Option NodeId))
      → Found o
      → (id : Option NodeId) × ((o ≡ some id) × OptionIn (length nodes) id)
  Found-some none h = absurd h
  Found-some (some id) h = (id, (refl, h))

-- In a compiled schema the walk to the node of a path never leaves the arena, whatever the path: it
-- ends at no node, or at the index of one.
pub node_for_in_range :
    {F D S : Type 0} (floats : Floats F) (ops : Dfa D S) (fuel : ℕ) (document : Bytes)
    (schema : Schema F D)
    → compile floats ops fuel document ≡ Compiled.ok schema
    → (tokens : List Bytes)
    → (node : Option NodeId) × ((node_for schema.nodes tokens schema.root ≡ some node)
        × OptionIn (length schema.nodes) node)
node_for_in_range floats ops fuel document schema e tokens =
    let (inside, closed) = compile-IsClosed floats ops fuel document schema e in
    Found-some schema.nodes closed (node_for schema.nodes tokens schema.root)
      (node_for-Found schema.nodes closed tokens schema.root inside)
