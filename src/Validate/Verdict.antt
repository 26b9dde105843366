-- ===== src/Validate/Verdict.antt =====
-- src/validate.rs: `Validation::fold`, and the verdict on a value's type.
pub mod Worst
use jawohl.Prelude.{Bool, true, false, ◌||◌, List, [], ◌∷◌, Option, none, some, if◌then◌else◌}
use jawohl.Value.{
  Value, Number, null, bool, number, string, array, object, partial_string, partial_number,
  partial_literal,
}
use jawohl.Event.{Validation, pending, valid_so_far, valid, invalid, irrecoverably_invalid}
use jawohl.Schema.Node.{TypeSet, no_type}

-- The loop over the parts, with `seen_invalid` and `seen_pending`.
unfoldable pub fold_from : Bool → Bool → List Validation → Validation
fold_from seen_invalid seen_pending [] =
    if seen_invalid then invalid else if seen_pending then pending else valid_so_far
fold_from seen_invalid seen_pending (irrecoverably_invalid ∷ parts) = irrecoverably_invalid
fold_from seen_invalid seen_pending (invalid ∷ parts) = fold_from true seen_pending parts
fold_from seen_invalid seen_pending (pending ∷ parts) = fold_from seen_invalid true parts
fold_from seen_invalid seen_pending (valid_so_far ∷ parts) =
    fold_from seen_invalid seen_pending parts
fold_from seen_invalid seen_pending (valid ∷ parts) = fold_from seen_invalid seen_pending parts

unfoldable pub fold : List Validation → Validation
unfolding fold_from
fold parts = fold_from false false parts

unfoldable pub is_failure : Validation → Bool
is_failure invalid = true
is_failure irrecoverably_invalid = true
is_failure _ = false

unfoldable pub is_irrecoverable : Validation → Bool
is_irrecoverable irrecoverably_invalid = true
is_irrecoverable _ = false

abbrev pub ok_or_invalid : Bool → Validation
ok_or_invalid ok = if ok then valid_so_far else invalid

-- A lower bound on a count that only grows.
abbrev pub at_least : Bool → Bool → Validation
at_least reached settled = if reached then valid_so_far else if settled then invalid else pending

unfoldable pub kind_of : Value → TypeSet
kind_of null = record no_type { null = true }
kind_of (bool _) = record no_type { boolean = true }
kind_of (object _) = record no_type { object = true }
kind_of (array _) = record no_type { array = true }
kind_of (string _) = record no_type { string = true }
kind_of (partial_string _) = record no_type { string = true }
kind_of (number _) = record no_type { number = true; integer = true }
kind_of (partial_number _) = record no_type { number = true; integer = true }
kind_of (partial_literal _) = record no_type { null = true; boolean = true }
