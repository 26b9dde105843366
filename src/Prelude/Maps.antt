-- ===== src/Prelude/Maps.antt =====
-- `BTreeMap<String, V>` as a list of its entries.
use mathlib.Core.Path.{◌≡◌, ap, refl}
use mathlib.Core.Bool.{false}
use mathlib.Core.Logic.{inl, inr}
use mathlib.Core.List.{List, [], ◌∷◌}
use mathlib.Core.Option.{Option, none, some}
use jawohl.Prelude.Tests.{if◌then◌else◌, Bool-cases}
use jawohl.Prelude.Lists.{Bytes, bytes_eq, bytes_eq_iff}

module _ {ℓ} {V : Type ℓ} where
  unfoldable pub lookup : Bytes → List (Bytes × V) → Option V
  lookup k [] = none
  lookup k ((j, v) ∷ m) = if bytes_eq j k then some v else lookup k m

  unfoldable pub insert : Bytes → V → List (Bytes × V) → List (Bytes × V)
  insert k v [] = (k, v) ∷ []
  insert k v ((j, w) ∷ m) =
      let rest = insert k v m in if bytes_eq j k then (k, v) ∷ m else (j, w) ∷ rest

  unfoldable pub remove : Bytes → List (Bytes × V) → List (Bytes × V)
  remove k [] = []
  remove k ((j, w) ∷ m) = let rest = remove k m in if bytes_eq j k then rest else (j, w) ∷ rest

  pub lookup-insert : (k : Bytes) (v : V) (m : List (Bytes × V)) → lookup k (insert k v m) ≡ some v
  unfolding lookup insert
  lookup-insert k v [] = rw ((bytes_eq_iff k k).1 refl) refl
  lookup-insert k v ((j, w) ∷ m) = elim (Bool-cases (bytes_eq j k)) [
    | inl e ↦ rw (e, (bytes_eq_iff k k).1 refl) refl
    | inr e ↦ rw (e, e) (lookup-insert k v m)
  ]

  pub lookup-insert_other :
      (k q : Bytes) (v : V) (m : List (Bytes × V))
      → bytes_eq k q ≡ false
      → lookup q (insert k v m) ≡ lookup q m
  unfolding lookup insert
  lookup-insert_other k q v [] other = rw other refl
  lookup-insert_other k q v ((j, w) ∷ m) other = elim (Bool-cases (bytes_eq j k)) [
    | inl e ↦
        let same : j ≡ k = (bytes_eq_iff j k).0 e in
        rw (e, other, ap (λ x. bytes_eq x q) same, other) refl
    | inr e ↦ rw (e, lookup-insert_other k q v m other) refl
  ]
