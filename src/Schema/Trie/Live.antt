-- ===== src/Schema/Trie/Live.antt =====
-- The queries of src/schema/trie.rs.
use mathlib.Core.List.{Memᴰ}
use mathlib.Core.List.Memᴰ.{head, tail}
use jawohl.Prelude.{
  ◌≡◌, ◌↔◌, inl, inr, refl, sym, ◌∙◌, Bool, Bool-cases, true, false, List, [], ◌∷◌, arith, Bytes,
  bytes_eq, bytes_eq_iff, starts_with, get_elem?,
}
use mathlib.Core.Path.{subst}
use jawohl.Schema.Trie.{
  bytes_ltb, binary_search, found, insert_at, one_later, Search, new, is_live, is_ok,
  prefix_is_live, contains,
}
use jawohl.Schema.Trie.Sorted.{IsSorted, Floor-Mem, new-IsSorted}
use jawohl.Schema.Trie.Members.{Mem-new}
use jawohl.Schema.Trie.Order.{ltb_asym, ltb_tie, prefix_floor, prefix_between}

ok-later : (r : Search) → is_ok (one_later r) ≡ is_ok r
ok-later (found i) = refl
ok-later (insert_at i) = refl

live-later :
    (x p : Bytes) (xs : List Bytes) (r : Search) → is_live (x ∷ xs) (one_later r) p ≡ is_live xs r p
unfolding get_elem?
live-later x p xs (found i) = refl
live-later x p xs (insert_at i) = refl

search_sound : (v : Bytes) (xs : List Bytes) → is_ok (binary_search xs v) ≡ true → Memᴰ v xs
unfolding binary_search
search_sound v [] h = cc
search_sound v (x ∷ xs) h = elim (Bool-cases (bytes_ltb x v)) [
  | inl below ↦ tail (search_sound v xs (sym (ok-later (binary_search xs v)) ∙ rw below at h))
  | inr above ↦ elim (Bool-cases (bytes_eq x v)) [
    | inl same ↦ head (sym ((bytes_eq_iff x v).0 same))
    | inr other ↦ absurd (ground arith)
  ]
]

bytes_ltb_irrefl : (x : Bytes) → bytes_ltb x x ≡ false
bytes_ltb_irrefl x = ground (arith, ltb_asym x x)

search_complete :
    (v : Bytes) (xs : List Bytes) → IsSorted xs → Memᴰ v xs → is_ok (binary_search xs v) ≡ true
unfolding binary_search
search_complete v [] s m = elim m [ ]
search_complete v (x ∷ xs) s (head e) =
    rw (sym e, bytes_ltb_irrefl v, (bytes_eq_iff v v).1 refl) refl
search_complete v (x ∷ xs) s (tail m) = ground (
  arith,
  search_complete v xs s.1 m,
  Floor-Mem x xs s.0 m,
  ok-later (binary_search xs v),
  ltb_tie x v,
)

starts_with_self : (x : Bytes) → starts_with x x ≡ true
unfolding starts_with
starts_with_self [] = refl
starts_with_self (b ∷ bs) = ground (arith, starts_with_self bs)

live_sound :
    (p : Bytes) (xs : List Bytes)
    → is_live xs (binary_search xs p) p ≡ true
    → (m : Bytes) × Memᴰ m xs × (starts_with p m ≡ true)
unfolding binary_search get_elem?
live_sound p [] h = cc
live_sound p (x ∷ xs) h = elim (Bool-cases (bytes_ltb x p)) [
  | inl below ↦
      let (m, k, s) =
        live_sound p xs (sym (live-later x p xs (binary_search xs p)) ∙ rw below at h) in
      (m, tail k, s)
  | inr above ↦ elim (Bool-cases (bytes_eq x p)) [
    | inl same ↦ (
      x,
      head refl,
      subst (λ t. starts_with t x ≡ true) ((bytes_eq_iff x p).0 same) (starts_with_self x),
    )
    | inr other ↦ (x, head refl, ground arith)
  ]
]

live_complete :
    (p : Bytes) (xs : List Bytes) {m : Bytes}
    → IsSorted xs
    → Memᴰ m xs
    → starts_with p m ≡ true
    → is_live xs (binary_search xs p) p ≡ true
unfolding binary_search get_elem?
live_complete p [] s k h = elim k [ ]
live_complete p (x ∷ xs) {m} s (head e) h =
    let begins : starts_with p x ≡ true = subst (λ t. starts_with p t ≡ true) e h in
    ground (arith, prefix_floor p x begins)
live_complete p (x ∷ xs) {m} s (tail k) h = ground (
  arith,
  live_complete p xs s.1 k h,
  live-later x p xs (binary_search xs p),
  prefix_between p x m,
  Floor-Mem x xs s.0 k,
)

-- A text is live exactly when a member of the `enum` begins with it, and contained exactly when it
-- is a member, in whatever order the members are given and however often.
pub queries_iff :
    (members : List Bytes) (flag : Bool) (text : Bytes)
    → ((prefix_is_live (new members flag) text ≡ true)
        ↔ ((m : Bytes) × Memᴰ m members × (starts_with text m ≡ true)))
      × ((contains (new members flag) text ≡ true) ↔ Memᴰ text members)
unfolding prefix_is_live contains
queries_iff members flag text =
    let sorted = new-IsSorted members flag in
    let strings = (new members flag).strings in
    (
      (
        λ h. let (m, k, s) = live_sound text strings h in (m, (Mem-new members flag).0 k, s),
        λ (m, k, s). live_complete text strings sorted ((Mem-new members flag).1 k) s,
      ),
      (
        λ h. (Mem-new members flag).0 (search_sound text strings h),
        λ h. search_complete text strings sorted ((Mem-new members flag).1 h),
      ),
    )
