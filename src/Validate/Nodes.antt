-- ===== src/Validate/Nodes.antt =====
-- src/validate.rs: the `Validator`, and `node_for`, the walk to the node that governs a path.
pub mod Bounds
use jawohl.Prelude.{ℕ, List, [], ◌∷◌, Option, none, some, Bool, Bytes, lookup, get_elem?}
use jawohl.Pointer.{parse_usize}
use jawohl.Value.{Value}
use jawohl.Event.{Validation}
use jawohl.Schema.Node.{NodeId, AdditionalProperties, Node}
use jawohl.Schema.Pattern.{Dfa}
use jawohl.Schema.Report.{Schema}
use jawohl.Validate.Numbers.{Floats, NumberProfile}
use jawohl.Validate.Judge.{or_node, judge}

pub record Validator (F D : Type 0) : Type 0 where
  pub schema : Schema F D
  pub profile : NumberProfile

abbrev additional_node : AdditionalProperties → Option NodeId
additional_node (AdditionalProperties.schema id) = some id
additional_node _ = none

-- The rest of the walk, where there is a next node.
abbrev pub visit : (NodeId → Option (Option NodeId)) → Option NodeId → Option (Option NodeId)
visit go none = some none
visit go (some next) = go next

module _ {F D : Type 0} where
  abbrev node_of_token : Bytes → Option ℕ → Node F D → Option NodeId
  node_of_token token (some i) n = or_node (get_elem? n.prefix_items i) n.items
  node_of_token token none n =
      or_node (lookup token n.properties) (additional_node n.additional_properties)

  unfoldable pub next_node : Bytes → Node F D → Option NodeId
  next_node token n = node_of_token token (parse_usize token) n

  abbrev pub step_from :
      (NodeId → Option (Option NodeId)) → Bytes → Option (Node F D) → Option (Option NodeId)
  step_from go token none = none
  step_from go token (some n) = visit go (next_node token n)

  -- `none` where an index is out of the arena, which is a panic.
  unfoldable pub node_for : List (Node F D) → List Bytes → NodeId → Option (Option NodeId)
  unfolding next_node
  node_for nodes [] cur = some (some cur)
  node_for nodes (t ∷ ts) cur = step_from (λ next. node_for nodes ts next) t (get_elem? nodes cur)

  abbrev pub judge_with :
      {S : Type 0}
      → Floats F
      → Dfa D S
      → ℕ
      → Validator F D
      → NodeId
      → Value
      → Bool
      → Option Validation
  judge_with floats ops fuel v node value complete =
      judge floats ops v.profile v.schema.nodes fuel node value complete
