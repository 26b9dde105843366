-- ===== src/Parser/Literals.antt =====
-- src/parser.rs: the literals `true`, `false` and `null`, each complete on its last byte.
use jawohl.Prelude.{
  ℕ, Bool, true, false, ◌||◌, List, [], ◌∷◌, ◌++◌, if◌then◌else◌, Bytes, codes, bytes_eq,
  starts_with,
}
use jawohl.Error.{bad_literal}
use jawohl.Value.{Value, bool, null}
use jawohl.Parser.State.{idle, lit, Parser, Outcome, ok, fail}
use jawohl.Parser.Structure.{attach}

abbrev pub keywords : List Bytes
keywords = codes "true" ∷ codes "false" ∷ codes "null" ∷ []

-- `keywords.iter().any(|k| k.starts_with(text))`
unfoldable pub begins_keyword : Bytes → Bool
unfolding starts_with
begins_keyword text =
    starts_with text (codes "true")
    || starts_with text (codes "false")
    || starts_with text (codes "null")

-- `keywords.contains(text)`
unfoldable pub is_keyword : Bytes → Bool
unfolding bytes_eq
is_keyword text =
    bytes_eq text (codes "true") || bytes_eq text (codes "false") || bytes_eq text (codes "null")

unfoldable pub literal_value : Bytes → Value
unfolding bytes_eq
literal_value text =
    if bytes_eq text (codes "true")
    then bool true
    else if bytes_eq text (codes "false")
    then bool false
    else null

unfoldable pub step_literal : Bytes → ℕ → Parser → Outcome Unit
step_literal text b p =
    let candidate = text ++ b ∷ [] in
    if begins_keyword candidate
    then (if is_keyword candidate
        then ok tt (attach (literal_value candidate) (record p { tok = idle }))
        else ok tt (record p { tok = lit candidate }))
    else fail bad_literal p
