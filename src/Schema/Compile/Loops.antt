-- ===== src/Schema/Compile/Loops.antt =====
-- src/schema/compile.rs: `lower` on an object that refers to itself.
use jawohl.Prelude.{ℕ, zero, suc, ◌≡◌, refl, ◌∷◌, none, some, Bytes, codes, lookup}
use jawohl.Value.{Value, Members, find_member}
use jawohl.Schema.Pattern.{Dfa}
use jawohl.Schema.Compile.State.{Compiler, spent, count, pointer_into}
use jawohl.Schema.Compile.Lower.{
  resolve_target, resolve_pointer, resolve_ref, lower_object, lower_value, lower,
}
use jawohl.Validate.Numbers.{Floats}

module _ {F D S : Type 0} (floats : Floats F) (ops : Dfa D S) where
  -- An object whose `$ref` leads back to it, by a pointer that is not being lowered, is lowered
  -- without end: whatever the fuel, it is spent.
  pub lower_self_reference :
      (members : Members) (pointer : Bytes)
      → find_member (codes "$ref") members ≡ some (Value.string (b'#' ∷ pointer))
      → (fuel : ℕ) (at : Bytes) (c : Compiler F D)
      → pointer_into c.root_value pointer ≡ some (Value.object members)
      → lookup pointer c.in_progress ≡ none
      → lower floats ops fuel (Value.object members) at c ≡ spent
  unfolding lower lower_value lower_object resolve_ref resolve_pointer resolve_target
  lower_self_reference members pointer ref zero at c to_self fresh = refl
  lower_self_reference members pointer ref (suc fuel) at c to_self fresh =
      rw (ref, fresh, to_self)
        (lower_self_reference members pointer ref fuel pointer (count c) to_self fresh)
