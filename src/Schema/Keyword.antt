-- ===== src/Schema/Keyword.antt =====
-- src/schema/compile.rs: the keywords that `lower` tells apart, and the table of deferred ones.
use jawohl.Prelude.{List, [], ◌∷◌, Option, none, some, Bytes, codes, lookup}
use jawohl.Schema.Report.{Reason, annotation_results, conditional, not_lowered, annotation_only}

pub data Keyword : Type 0 where
  types : Keyword
  min_length max_length min_items max_items min_properties max_properties : Keyword
  minimum maximum exclusive_minimum exclusive_maximum multiple_of : Keyword
  unique_items pattern enumeration const_value required : Keyword
  properties additional_properties items prefix_items : Keyword
  all_of any_of one_of not_schema : Keyword
  definitions annotation unrecognised : Keyword
  deferred : Reason → Keyword

abbrev keywords : List (Bytes × Keyword)
keywords =
    (codes "type", types)
    ∷ (codes "minLength", min_length)
    ∷ (codes "maxLength", max_length)
    ∷ (codes "minItems", min_items)
    ∷ (codes "maxItems", max_items)
    ∷ (codes "minProperties", min_properties)
    ∷ (codes "maxProperties", max_properties)
    ∷ (codes "minimum", minimum)
    ∷ (codes "maximum", maximum)
    ∷ (codes "exclusiveMinimum", exclusive_minimum)
    ∷ (codes "exclusiveMaximum", exclusive_maximum)
    ∷ (codes "multipleOf", multiple_of)
    ∷ (codes "uniqueItems", unique_items)
    ∷ (codes "pattern", pattern)
    ∷ (codes "enum", enumeration)
    ∷ (codes "const", const_value)
    ∷ (codes "required", required)
    ∷ (codes "properties", properties)
    ∷ (codes "additionalProperties", additional_properties)
    ∷ (codes "items", items)
    ∷ (codes "prefixItems", prefix_items)
    ∷ (codes "allOf", all_of)
    ∷ (codes "anyOf", any_of)
    ∷ (codes "oneOf", one_of)
    ∷ (codes "not", not_schema)
    ∷ (codes "$defs", definitions)
    ∷ (codes "definitions", definitions)
    ∷ (codes "title", annotation)
    ∷ (codes "description", annotation)
    ∷ (codes "default", annotation)
    ∷ (codes "examples", annotation)
    ∷ (codes "$schema", annotation)
    ∷ (codes "$id", annotation)
    ∷ (codes "$comment", annotation)
    ∷ (codes "deprecated", annotation)
    ∷ (codes "readOnly", annotation)
    ∷ (codes "writeOnly", annotation)
    ∷ []

-- `DEFERRED`
abbrev deferred_keywords : List (Bytes × Reason)
deferred_keywords =
    (codes "unevaluatedProperties", annotation_results)
    ∷ (codes "unevaluatedItems", annotation_results)
    ∷ (codes "if", conditional)
    ∷ (codes "then", conditional)
    ∷ (codes "else", conditional)
    ∷ (codes "dependentSchemas", not_lowered)
    ∷ (codes "dependentRequired", not_lowered)
    ∷ (codes "contains", not_lowered)
    ∷ (codes "propertyNames", not_lowered)
    ∷ (codes "patternProperties", not_lowered)
    ∷ (codes "format", annotation_only)
    ∷ []

abbrev or_deferred : Option Keyword → Option Reason → Keyword
or_deferred (some k) why = k
or_deferred none (some why) = deferred why
or_deferred none none = unrecognised

unfoldable pub keyword_of : Bytes → Keyword
unfolding lookup
keyword_of key = or_deferred (lookup key keywords) (lookup key deferred_keywords)
