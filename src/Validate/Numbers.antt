-- ===== src/Validate/Numbers.antt =====
-- src/validate.rs: the checks of numbers, and of a value's type.
use jawohl.Prelude.{
  ℕ, Bool, true, false, not, ◌&&◌, ◌||◌, [], ◌∷◌, ◌++◌, Option, none, some, if◌then◌else◌, codes,
  ◌==◌, length, Bytes, starts_with,
}
use jawohl.Value.{Value, number, partial_number}
use jawohl.Event.{Validation, pending, valid_so_far, invalid, irrecoverably_invalid}
use jawohl.Pointer.{contains_byte}
use jawohl.Schema.Node.{TypeSet, no_type, Node, shares}
use jawohl.Validate.Verdict.{fold, ok_or_invalid, kind_of}
use jawohl.Validate.Scalars.{option_part, over}

-- `f64`: what the checks use of it.
pub record Floats (F : Type 0) : Type 0 where
  -- `text.parse::<f64>().ok()`
  pub parse : Bytes → Option F
  pub less : F → F → Bool
  pub less_or_equal : F → F → Bool
  -- `f.fract() == 0.0`
  pub is_integral : F → Bool
  -- `m != 0.0 && (v / m).fract().abs() < 1e-9`, `v` first
  pub is_multiple : F → F → Bool
  pub add : F → F → F
  pub neg : F → F
  pub infinity : F
  -- `10f64.powi(-places)`
  pub ten_to_minus : ℕ → F

-- How numeric prefixes are read.
pub data NumberProfile : Type 0 where
  plain_decimal exact : NumberProfile

-- `trim_start_matches('-')`
unfoldable pub trim_minus : Bytes → Bytes
trim_minus [] = []
trim_minus (b ∷ bs) = let rest = trim_minus bs in if b == b'-' then rest else b ∷ bs

-- `split('.').nth(1)`
unfoldable pub until_dot : Bytes → Bytes
until_dot [] = []
until_dot (b ∷ bs) = let rest = until_dot bs in if b == b'.' then [] else b ∷ rest

unfoldable pub places_of : Bytes → ℕ
unfolding until_dot
places_of [] = 0
places_of (b ∷ bs) = let rest = places_of bs in if b == b'.' then length (until_dot bs) else rest

abbrev is_some {ℓ} : {A : Type ℓ} → Option A → Bool
is_some none = false
is_some (some a) = true

abbrev number_type : TypeSet
number_type = record no_type { number = true }

abbrev integer_type : TypeSet
integer_type = record no_type { integer = true }

module _ {F : Type 0} (floats : Floats F) where
  abbrev interval_from : Bool → Bytes → Option F → Option (F × F)
  interval_from negative digits none = none
  interval_from negative digits (some base) =
      let hi =
        if contains_byte b'.' digits
        then floats.add base (floats.ten_to_minus (places_of digits))
        else floats.infinity in
      some (if negative then (floats.neg hi, floats.neg base) else (base, hi))

  -- The interval in which the number will be; `none` when nothing can be said.
  unfoldable pub numeric_interval : Bytes → NumberProfile → Option (F × F)
  unfolding trim_minus places_of
  numeric_interval prefix exact = none
  numeric_interval prefix plain_decimal =
      if contains_byte b'e' prefix || contains_byte b'E' prefix
      then none
      else elim (trim_minus prefix) [
        | [] ↦ none
        | d ∷ ds ↦ interval_from (starts_with (codes "-") prefix) (d ∷ ds) (floats.parse (d ∷ ds))
      ]

  abbrev is_whole : Option F → Bool
  is_whole none = false
  is_whole (some f) = floats.is_integral f

  -- `integer`, of a whole number.
  abbrev integer_part : TypeSet → Value → Bool → Validation
  integer_part want (number num) complete =
      if complete
        && (not (shares want number_type) && shares want integer_type)
        && not (is_whole (floats.parse num.text))
      then invalid
      else valid_so_far
  integer_part want _ complete = valid_so_far

  abbrev pub type_part : Option TypeSet → Value → Bool → Validation
  type_part none value complete = valid_so_far
  type_part (some want) value complete =
      if not (shares want (kind_of value))
      then irrecoverably_invalid
      else integer_part want value complete

  module _ {D : Type 0} where
    abbrev has_bounds : Node F D → Bool
    has_bounds n =
        is_some n.minimum
        || is_some n.maximum
        || is_some n.exclusive_minimum
        || is_some n.exclusive_maximum

    abbrev whole_number : Node F D → Option F → Validation
    whole_number n none = invalid
    whole_number n (some v) = fold (
        option_part n.minimum (λ m. ok_or_invalid (floats.less_or_equal m v) ∷ [])
        ++ option_part n.maximum (λ m. ok_or_invalid (floats.less_or_equal v m) ∷ [])
        ++ option_part n.exclusive_minimum (λ m. ok_or_invalid (floats.less m v) ∷ [])
        ++ option_part n.exclusive_maximum (λ m. ok_or_invalid (floats.less v m) ∷ [])
        ++ option_part n.multiple_of (λ m. ok_or_invalid (floats.is_multiple v m) ∷ []))

    abbrev partial_number_in : Node F D → Option (F × F) → Validation
    partial_number_in n none = pending
    partial_number_in n (some (lo, hi)) = fold (
        option_part n.maximum (λ m. over (floats.less m lo))
        ++ option_part n.exclusive_maximum (λ m. over (floats.less_or_equal m lo))
        ++ option_part n.minimum (λ m. over (floats.less hi m))
        ++ option_part n.exclusive_minimum (λ m. over (floats.less_or_equal hi m))
        ++ pending ∷ [])

    abbrev check_number_text : NumberProfile → Node F D → Bytes → Bool → Validation
    check_number_text profile n text settled =
        if not (has_bounds n) && not (is_some n.multiple_of)
        then valid_so_far
        else if settled
        then whole_number n (floats.parse text)
        else partial_number_in n (numeric_interval text profile)

    unfoldable pub check_number : NumberProfile → Node F D → Value → Bool → Validation
    check_number profile n (number num) complete = check_number_text profile n num.text complete
    check_number profile n (partial_number text) complete = check_number_text profile n text false
    check_number profile n _ complete = valid_so_far

    unfoldable pub check_type : Node F D → Value → Bool → Validation
    unfolding kind_of
    check_type n value complete = type_part n.types value complete
