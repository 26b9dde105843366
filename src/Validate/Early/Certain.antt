-- ===== src/Validate/Early/Certain.antt =====
-- Early rejection, in a schema whose combinators form no cycle.
use jawohl.Prelude.{ℕ, Bool, ◌<◌, ◌≡◌, true, false, List, ◌++◌, some, Bytes, get_elem?}
use jawohl.Value.{string, partial_string}
use jawohl.Event.{Validation, irrecoverably_invalid}
use jawohl.Schema.Pattern.{Dfa}
use jawohl.Schema.Node.{NodeId, Node}
use jawohl.Validate.Verdict.{is_failure}
use jawohl.Validate.Numbers.{Floats, NumberProfile}
use jawohl.Validate.Judge.{judge}
use jawohl.Validate.Returns.{Returns, IsRanked, judge-Returns}
use jawohl.Validate.Early.Strings.{EndsDead}
use jawohl.Validate.Early.Judged.{IsLawful, judge-rejects}

-- A string in flight that is judged irrecoverably invalid fails however it ends: its whole text is
-- judged, and the verdict is a failure. The enums of the schema were built of their members; each
-- pattern that may reject early matches at the start of a text or nowhere, and has no match in the
-- text in flight; an anchored search is over at a dead state; the combinators form no cycle, and there
-- is more fuel than the rank of the node.
pub judge-fails :
    {F D S : Type 0} (floats : Floats F) (ops : Dfa D S) (anchored : D → Bytes → Bool)
    → EndsDead ops anchored
    → (profile : NumberProfile) (nodes : List (Node F D)) (rank : NodeId → ℕ) (s rest : Bytes)
    → IsLawful ops anchored s nodes
    → IsRanked nodes rank
    → (fuel : ℕ) (id : NodeId) → Returns (get_elem? nodes id)
    → rank id < fuel
    → judge floats ops profile nodes fuel id (partial_string s) false ≡ some irrecoverably_invalid
    → (verdict : Validation) × (judge floats ops profile nodes fuel id (string (s ++ rest)) true
        ≡ some verdict)
      × (is_failure verdict ≡ true)
judge-fails floats ops anchored law profile nodes rank s rest lawful ranked fuel id there enough
      early =
    let (verdict, late) =
      judge-Returns floats ops profile nodes rank ranked fuel id (string (s ++ rest)) true tt there
        enough in
    (
      verdict,
      late,
      judge-rejects floats ops anchored law profile nodes s rest lawful fuel id verdict early late,
    )
