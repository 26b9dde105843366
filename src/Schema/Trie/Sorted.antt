-- ===== src/Schema/Trie/Sorted.antt =====
-- The order of the members that `EnumTrie::new` keeps.
use mathlib.Core.List.{Memᴰ}
use mathlib.Core.List.Memᴰ.{head, tail}
use jawohl.Prelude.{◌≡◌, sym, Bool, false, List, [], ◌∷◌, arith, Bytes}
use mathlib.Core.Path.{subst}
use jawohl.Schema.Trie.{bytes_ltb, insert_sorted, sort, dedup_after, dedup, new}
use jawohl.Schema.Trie.Order.{ltb_asym, ltb_cut}

-- No text of the list is below `x`.
abbrev pub Floor : Bytes → List Bytes → Type 0
Floor x [] = Unit
Floor x (y ∷ ys) = (bytes_ltb y x ≡ false) × Floor x ys

abbrev pub IsSorted : List Bytes → Type 0
IsSorted [] = Unit
IsSorted (x ∷ xs) = Floor x xs × IsSorted xs

pub Floor-Mem :
    (x : Bytes) (xs : List Bytes) {y : Bytes} → Floor x xs → Memᴰ y xs → bytes_ltb y x ≡ false
Floor-Mem x [] f m = elim m [ ]
Floor-Mem x (z ∷ zs) f (head e) = subst (λ t. bytes_ltb t x ≡ false) (sym e) f.0
Floor-Mem x (z ∷ zs) f (tail m) = Floor-Mem x zs f.1 m

lower_Floor : (x y : Bytes) (ys : List Bytes) → bytes_ltb y x ≡ false → Floor y ys → Floor x ys
lower_Floor x y [] h f = tt
lower_Floor x y (z ∷ zs) h f = (ground (arith, ltb_cut x y z), lower_Floor x y zs h f.1)

Floor-insert_sorted :
    (w x : Bytes) (ys : List Bytes)
    → bytes_ltb x w ≡ false
    → Floor w ys
    → Floor w (insert_sorted x ys)
unfolding insert_sorted
Floor-insert_sorted w x [] h f = (h, tt)
Floor-insert_sorted w x (y ∷ ys) h f = ground (arith, Floor-insert_sorted w x ys)

insert_sorted-IsSorted : (x : Bytes) (ys : List Bytes) → IsSorted ys → IsSorted (insert_sorted x ys)
unfolding insert_sorted
insert_sorted-IsSorted x [] s = (tt, tt)
insert_sorted-IsSorted x (y ∷ ys) s = ground (
  arith,
  ltb_asym y x,
  insert_sorted-IsSorted x ys,
  Floor-insert_sorted y x ys,
  lower_Floor x y ys,
)

sort-IsSorted : (xs : List Bytes) → IsSorted (sort xs)
unfolding sort
sort-IsSorted [] = tt
sort-IsSorted (x ∷ xs) = insert_sorted-IsSorted x (sort xs) (sort-IsSorted xs)

Floor-dedup_after : (w x : Bytes) (ys : List Bytes) → Floor w ys → Floor w (dedup_after x ys)
unfolding dedup_after
Floor-dedup_after w x [] f = tt
Floor-dedup_after w x (y ∷ ys) f = ground (arith, Floor-dedup_after w y ys)

dedup_after-IsSorted : (x : Bytes) (ys : List Bytes) → IsSorted ys → IsSorted (dedup_after x ys)
unfolding dedup_after
dedup_after-IsSorted x [] s = tt
dedup_after-IsSorted x (y ∷ ys) s =
    ground (arith, dedup_after-IsSorted y ys, Floor-dedup_after y y ys)

pub new-IsSorted : (xs : List Bytes) (flag : Bool) → IsSorted (new xs flag).strings
unfolding new dedup
new-IsSorted xs flag = dedup-IsSorted (sort xs) (sort-IsSorted xs)
  where
    dedup-IsSorted : (ys : List Bytes) → IsSorted ys → IsSorted (dedup ys)
    dedup-IsSorted [] s = tt
    dedup-IsSorted (y ∷ ys) s = (Floor-dedup_after y y ys s.0, dedup_after-IsSorted y ys s.1)
