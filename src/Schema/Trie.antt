-- ===== src/Schema/Trie.antt =====
-- src/schema/trie.rs: the string members of an `enum`, sorted for prefix queries. `sort`, `dedup` and
-- `binary_search_by` are Rust's: a sort, the removal of equal neighbours, and the position at which a
-- sorted slice has the text or would have it.
pub mod Order
pub mod Sorted
pub mod Members
pub mod Live
use jawohl.Prelude.{
  ℕ, zero, suc, ◌+◌, Bool, true, false, ◌&&◌, ◌||◌, List, [], ◌∷◌, Option, none, some, ltb, ◌==◌,
  if◌then◌else◌, Bytes, bytes_eq, starts_with, get_elem?,
}

-- `String`'s order, that of the bytes.
unfoldable pub bytes_ltb : Bytes → Bytes → Bool
bytes_ltb xs [] = false
bytes_ltb [] (y ∷ ys) = true
bytes_ltb (x ∷ xs) (y ∷ ys) = ltb x y || x == y && bytes_ltb xs ys

unfoldable pub insert_sorted : Bytes → List Bytes → List Bytes
unfolding bytes_ltb
insert_sorted x [] = x ∷ []
insert_sorted x (y ∷ ys) =
    let rest = insert_sorted x ys in if bytes_ltb y x then y ∷ rest else x ∷ y ∷ ys

unfoldable pub sort : List Bytes → List Bytes
unfolding insert_sorted
sort [] = []
sort (x ∷ xs) = insert_sorted x (sort xs)

unfoldable pub dedup_after : Bytes → List Bytes → List Bytes
dedup_after last [] = []
dedup_after last (x ∷ xs) =
    let rest = dedup_after x xs in if bytes_eq last x then rest else x ∷ rest

unfoldable pub dedup : List Bytes → List Bytes
unfolding dedup_after
dedup [] = []
dedup (x ∷ xs) = x ∷ dedup_after x xs

-- `Result<usize, usize>`
pub data Search : Type 0 where
  found : ℕ → Search
  insert_at : ℕ → Search

abbrev pub one_later : Search → Search
one_later (found i) = found (suc i)
one_later (insert_at i) = insert_at (suc i)

unfoldable pub binary_search : List Bytes → Bytes → Search
unfolding bytes_ltb
binary_search [] text = insert_at 0
binary_search (m ∷ ms) text =
    let rest = binary_search ms text in
    if bytes_ltb m text then one_later rest else if bytes_eq m text then found 0 else insert_at 0

pub record EnumTrie : Type 0 where
  pub strings : List Bytes
  pub has_non_strings : Bool

unfoldable pub new : List Bytes → Bool → EnumTrie
unfolding sort dedup
new strings has_non_strings = record {
  strings = dedup (sort strings);
  has_non_strings = has_non_strings;
}

abbrev pub member_starts : Option Bytes → Bytes → Bool
member_starts none prefix = false
member_starts (some m) prefix = starts_with prefix m

abbrev pub is_live : List Bytes → Search → Bytes → Bool
is_live strings (found i) prefix = true
is_live strings (insert_at i) prefix = member_starts (get_elem? strings i) prefix

unfoldable pub prefix_is_live : EnumTrie → Bytes → Bool
unfolding binary_search
prefix_is_live t prefix = is_live t.strings (binary_search t.strings prefix) prefix

abbrev pub is_ok : Search → Bool
is_ok (found i) = true
is_ok (insert_at i) = false

unfoldable pub contains : EnumTrie → Bytes → Bool
unfolding binary_search
contains t value = is_ok (binary_search t.strings value)
