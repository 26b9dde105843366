-- ===== src/Stream/Status.antt =====
-- src/lib.rs: `Stream::status`, of the stream's parser.
use jawohl.Prelude.{
  Bool, true, false, ◌&&◌, List, [], ◌∷◌, Option, none, some, if◌then◌else◌, Bytes, bytes_eq,
}
use jawohl.Pointer.{parse_pointer}
use jawohl.Value.{Value, Syntax, missing, incomplete, complete, child, is_complete}
use jawohl.Parser.State.{Parser}
use jawohl.Parser.Snapshot.{snapshot, open_frame_path}

-- `tokens.len() <= open.len() && open[..tokens.len()] == *tokens`
unfoldable pub is_prefix : List Bytes → List Bytes → Bool
is_prefix [] open_tokens = true
is_prefix (t ∷ ts) [] = false
is_prefix (t ∷ ts) (o ∷ os) = bytes_eq o t && is_prefix ts os

abbrev pub prefix_of_open : List Bytes → Option (List Bytes) → Bool
prefix_of_open tokens none = false
prefix_of_open tokens (some path) = is_prefix tokens path

unfoldable pub is_open_container : List Bytes → Parser → Bool
unfolding is_prefix
is_open_container tokens p = prefix_of_open tokens (open_frame_path p)

-- The walk along the tokens.
unfoldable pub descend : List Bytes → Value → Option Value
descend [] v = some v
descend (t ∷ ts) v = elim (child v t) [ none ↦ none | some next ↦ descend ts next ]

abbrev pub descend_from : List Bytes → Option Value → Option Value
descend_from tokens none = none
descend_from tokens (some v) = descend tokens v

abbrev pub status_of : List Bytes → Parser → Option Value → Syntax
status_of tokens p none = missing
status_of tokens p (some v) =
    if is_complete v
    then (if is_open_container tokens p then incomplete else complete)
    else incomplete

-- The status at the tokens of a pointer.
unfoldable pub status_at : List Bytes → Parser → Syntax
unfolding descend
status_at tokens p = status_of tokens p (descend_from tokens (snapshot p))

abbrev pub status_for : Option (List Bytes) → Parser → Syntax
status_for none p = missing
status_for (some tokens) p = status_at tokens p

unfoldable pub status : Bytes → Parser → Syntax
unfolding status_at
status pointer p = status_for (parse_pointer pointer) p
