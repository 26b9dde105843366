-- ===== src/Error.antt =====
-- src/error.rs: what a failed parse reports. `expected` is a static note.
use jawohl.Prelude.{ℕ, String}

pub data ParseErrorKind : Type 0 where
  unexpected : ℕ → String → ParseErrorKind
  mismatched_close : ℕ → ℕ → ParseErrorKind
  unbalanced_close : ℕ → ParseErrorKind
  trailing_content : ℕ → ParseErrorKind
  bad_escape : ℕ → ParseErrorKind
  bad_unicode_escape : ℕ → ParseErrorKind
  bad_surrogate : ParseErrorKind
  invalid_utf8 : ParseErrorKind
  control_in_string : ℕ → ParseErrorKind
  malformed_number : ParseErrorKind
  bad_literal : ParseErrorKind
  depth_limit_exceeded : ℕ → ParseErrorKind
  unexpected_end_of_input : ParseErrorKind
  number_profile_violated : ParseErrorKind

pub record ParseError : Type 0 where
  pub offset : ℕ
  pub kind : ParseErrorKind
