-- ===== src/Validate/Early/Matched.antt =====
-- A pattern that has matched the text in flight, in src/schema/pattern.rs and src/validate.rs.
use jawohl.Schema.Pattern.{Pattern}
