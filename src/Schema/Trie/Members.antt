-- ===== src/Schema/Trie/Members.antt =====
-- The members of src/schema/trie.rs, before and after `EnumTrie::new`.
use mathlib.Core.List.{Memᴰ}
use mathlib.Core.List.Memᴰ.{head, tail}
use jawohl.Prelude.{
  ◌≡◌, ◌↔◌, inl, inr, sym, ◌∙◌, Bool, Bool-cases, true, false, List, [], ◌∷◌, Bytes, bytes_eq,
  bytes_eq_iff, if◌then◌else◌,
}
use mathlib.Core.Path.{subst}
use jawohl.Schema.Trie.{bytes_ltb, insert_sorted, sort, dedup_after, dedup, new}

module _ {m : Bytes} where
  Mem-under :
      (x : Bytes) {xs ys : List Bytes}
      → (Memᴰ m xs) ↔ (Memᴰ m ys)
      → (Memᴰ m (x ∷ xs)) ↔ (Memᴰ m (x ∷ ys))
  Mem-under x h = (
    λ k. elim k [ head e ↦ head e | tail l ↦ tail (h.0 l) ],
    λ k. elim k [ head e ↦ head e | tail l ↦ tail (h.1 l) ],
  )

  Mem-swapped : {x y : Bytes} {ys : List Bytes} → Memᴰ m (x ∷ y ∷ ys) → Memᴰ m (y ∷ x ∷ ys)
  Mem-swapped (head e) = tail (head e)
  Mem-swapped (tail (head e)) = head e
  Mem-swapped (tail (tail k)) = tail (tail k)

  Mem-insert_sorted :
      (x : Bytes) (ys : List Bytes) → (Memᴰ m (insert_sorted x ys)) ↔ (Memᴰ m (x ∷ ys))
  unfolding insert_sorted
  Mem-insert_sorted x [] = (λ h. h, λ h. h)
  Mem-insert_sorted x (y ∷ ys) =
      let under = Mem-under y (Mem-insert_sorted x ys) in
      elim (bytes_ltb y x)
        as (λ b.
          (Memᴰ m (if b then y ∷ insert_sorted x ys else x ∷ y ∷ ys)) ↔ (Memᴰ m (x ∷ y ∷ ys))) [
            | true ↦ (λ h. Mem-swapped (under.0 h), λ h. under.1 (Mem-swapped h))
            | false ↦ (λ h. h, λ h. h)
          ]

  Mem-sort : (xs : List Bytes) → (Memᴰ m (sort xs)) ↔ (Memᴰ m xs)
  unfolding sort
  Mem-sort [] = (λ h. h, λ h. h)
  Mem-sort (x ∷ xs) =
      let (there, back) = Mem-insert_sorted x (sort xs) in
      let under = Mem-under x (Mem-sort xs) in (λ h. under.0 (there h), λ h. back (under.1 h))

  Mem-renamed : {x y : Bytes} {ys : List Bytes} → x ≡ y → Memᴰ m (y ∷ ys) → Memᴰ m (x ∷ ys)
  Mem-renamed {ys = ys} e h = subst (λ t. Memᴰ m (t ∷ ys)) (sym e) h

  Mem-dedup_after :
      (x : Bytes) (ys : List Bytes) → (Memᴰ m (x ∷ dedup_after x ys)) ↔ (Memᴰ m (x ∷ ys))
  unfolding dedup_after
  Mem-dedup_after x [] = (λ h. h, λ h. h)
  Mem-dedup_after x (y ∷ ys) =
      let (there, back) = Mem-dedup_after y ys in
      elim (Bool-cases (bytes_eq x y)) [
        | inl same ↦
            let e = (bytes_eq_iff x y).0 same in
            rw same
              (λ h. tail (there (Mem-renamed (sym e) h)), λ h. Mem-renamed e (back (Mem-once e h)))
        | inr other ↦ rw other (Mem-under x (there, back))
      ]
    where
      Mem-once : {x y : Bytes} {ys : List Bytes} → x ≡ y → Memᴰ m (x ∷ y ∷ ys) → Memᴰ m (y ∷ ys)
      Mem-once e (head h) = head (h ∙ e)
      Mem-once e (tail h) = h

  Mem-dedup : (ys : List Bytes) → (Memᴰ m (dedup ys)) ↔ (Memᴰ m ys)
  unfolding dedup
  Mem-dedup [] = (λ h. h, λ h. h)
  Mem-dedup (y ∷ ys) = Mem-dedup_after y ys

  pub Mem-new : (xs : List Bytes) (flag : Bool) → (Memᴰ m (new xs flag).strings) ↔ (Memᴰ m xs)
  unfolding new
  Mem-new xs flag =
      let (there, back) = Mem-sort xs in
      let (sorted, unsorted) = Mem-dedup (sort xs) in
      (λ h. there (sorted h), λ h. unsorted (back h))
