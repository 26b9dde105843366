-- ===== src/Schema/Compile/Accounted/Documents.antt =====
-- The lowering report of a whole document.
use jawohl.Prelude.{ℕ, ◌≤◌, refl, []}
use jawohl.Value.{Value}
use jawohl.Schema.Pattern.{Dfa}
use jawohl.Schema.Report.{Schema, Unsupported}
use jawohl.Schema.Compile.Entry.{Compiled}
use jawohl.Schema.Compile.Accounted.{Scale, measure, obligations}
use jawohl.Validate.Numbers.{Floats}

-- One for each enforced keyword, and nothing for an entry.
abbrev counting : Scale
counting = record { one = 1; tally = λ n. n; counted = λ n. refl; entry = λ u. 0 }

-- Nothing for an enforced keyword, and each entry at its weight.
abbrev weighing : (Unsupported → ℕ) → Scale
weighing entry = record { one = 0; tally = λ n. 0; counted = λ n. refl; entry = entry }

module _ {F D S : Type 0} (floats : Floats F) (ops : Dfa D S) where
  -- The number of keywords of a document that are enforced.
  abbrev pub enforced : Value → ℕ
  enforced v = obligations floats ops 1 (λ u. 0) v []

  -- The entries of the keywords that are not enforced, each at its weight, added up.
  abbrev pub unenforced : (Unsupported → ℕ) → Value → ℕ
  unenforced entry v = obligations floats ops 0 entry v []

  abbrev ReportsIf : Scale → ℕ → Compiled (Schema F D) → Type 0
  ReportsIf s k (Compiled.ok schema) = k ≤ measure s schema.report
  ReportsIf s k _ = Unit
