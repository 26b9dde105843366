-- ===== src/Schema/Compile/Ends.antt =====
-- src/schema/compile.rs: how far `lower` recurses in a schema without references.
pub mod Lowering
use jawohl.Prelude.{ℕ, suc, ◌+◌, ◌≡◌, Bool, false, codes}
use jawohl.Value.{Value, Values, Members, nil, cons, end, member, find_member}
use jawohl.Schema.Compile.State.{Compiler, Lowered, done, failed, spent, ◌>>=◌}
use jawohl.Schema.Compile.Accounted.{is_ref}

unfoldable mutual
  pub size : Value → ℕ
  size (Value.array vs) = suc (size_items vs)
  size (Value.object ms) = suc (size_members ms)
  size _ = 1

  pub size_items : Values → ℕ
  size_items nil = 0
  size_items (cons v vs) = size v + size_items vs

  pub size_members : Members → ℕ
  size_members end = 0
  size_members (member key v ms) = size v + size_members ms

-- No object of the value has a string under `$ref`.
unfoldable mutual
  pub IsRefFree : Value → Type 0
  IsRefFree (Value.array vs) = AreRefFree vs
  IsRefFree (Value.object ms) = (is_ref (find_member (codes "$ref") ms) ≡ false) × MembersRefFree ms
  IsRefFree _ = Unit

  pub AreRefFree : Values → Type 0
  AreRefFree nil = Unit
  AreRefFree (cons v vs) = IsRefFree v × AreRefFree vs

  pub MembersRefFree : Members → Type 0
  MembersRefFree end = Unit
  MembersRefFree (member key v ms) = IsRefFree v × MembersRefFree ms

module _ {F D : Type 0} where
  -- The fuel was enough.
  abbrev pub Ends : {A : Type 0} → Lowered F D A → Type 0
  Ends (done a c) = Unit
  Ends (failed e) = Unit
  Ends spent = ⊥

  pub Ends-bind :
      {A B : Type 0} (m : Lowered F D A) (f : A → Compiler F D → Lowered F D B)
      → Ends m
      → ((a : A) (c : Compiler F D) → Ends (f a c))
      → Ends (m >>= f)
  Ends-bind (done a c) f h k = k a c
  Ends-bind (failed e) f h k = tt
  Ends-bind spent f h k = elim h [ ]
