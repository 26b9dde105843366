-- ===== src/Schema/Compile/State.antt =====
-- src/schema/compile.rs: `Compiler`, its small methods, and how lowering returns.
use jawohl.Prelude.{
  ◌+◌, ◌%◌, ◌^◌, List, [], ◌∷◌, ◌++◌, Option, none, some, ◌==◌, if◌then◌else◌, length, Bytes, set,
  insert, remove,
}
use jawohl.Pointer.{split_slash, unescape_token}
use jawohl.Value.{Value, child}
use jawohl.Schema.Node.{NodeId, Node, permissive}
use jawohl.Schema.Report.{Reason, LoweringReport, SchemaError}

module _ (F D : Type 0) where
  pub record Compiler : Type 0 where
    pub nodes : List (Node F D)
    pub report : LoweringReport
    pub root_value : Value
    pub in_progress : List (Bytes × NodeId)

-- `Result<A, SchemaError>` beside `&mut self`; `spent` is the model's: the fuel was.
pub data Lowered (F D A : Type 0) : Type 0 where
  done : A → Compiler F D → Lowered F D A
  failed : SchemaError → Lowered F D A
  spent : Lowered F D A

infixl 5 ◌>>=◌
abbrev pub ◌>>=◌ :
    {F D A B : Type 0} → Lowered F D A → (A → Compiler F D → Lowered F D B) → Lowered F D B
done a c >>= f = f a c
failed e >>= f = failed e
spent >>= f = spent

module _ {F D : Type 0} where
  -- `self.report.compiled += 1`
  abbrev pub count : Compiler F D → Compiler F D
  count c = record c { report = record c.report { compiled = c.report.compiled + 1 } }

  unfoldable pub note : Bytes → Bytes → Reason → Compiler F D → Compiler F D
  note location keyword reason c = record c {
    report = record c.report {
      unsupported =
          c.report.unsupported
          ++ record { location = location; keyword = keyword; reason = reason } ∷ [];
    };
  }

  -- `NodeId(self.nodes.len() as u32)`
  abbrev pub next_id : Compiler F D → NodeId
  next_id c = length c.nodes % 2 ^ 32

  abbrev pub push_node : Node F D → Compiler F D → Compiler F D
  push_node n c = record c { nodes = c.nodes ++ n ∷ [] }

  unfoldable pub alloc : Node F D → Compiler F D → Lowered F D NodeId
  alloc n c = done (next_id c) (push_node n c)

  -- `reserve`, and the entry of the pointer that is being lowered.
  unfoldable pub begin_node : Bytes → Compiler F D → Compiler F D
  begin_node at c = record (push_node permissive c) {
    in_progress = insert at (next_id c) c.in_progress;
  }

  unfoldable pub end_node : Bytes → NodeId → Node F D → Compiler F D → Compiler F D
  end_node at id n c = record c { nodes = set c.nodes id n; in_progress = remove at c.in_progress }

-- `trim_start_matches('/')`
unfoldable pub trim_slashes : Bytes → Bytes
trim_slashes [] = []
trim_slashes (b ∷ bs) = let rest = trim_slashes bs in if b == b'/' then rest else b ∷ bs

unfoldable pub walk_tokens : List Bytes → Value → Option Value
walk_tokens [] v = some v
walk_tokens (t ∷ ts) v = elim (child v (unescape_token t)) [
  | none ↦ none
  | some next ↦ walk_tokens ts next
]

unfoldable pub pointer_into : Value → Bytes → Option Value
unfolding trim_slashes walk_tokens
pointer_into root [] = some root
pointer_into root (b ∷ bs) = walk_tokens (split_slash (trim_slashes (b ∷ bs))) root
