-- ===== src/Schema/Trie/Order.antt =====
-- The order of texts by their bytes, and where the texts with a prefix stand in it.
use jawohl.Prelude.{◌≡◌, refl, true, false, [], ◌∷◌, arith, Bytes, bytes_eq, starts_with}
use jawohl.Schema.Trie.{bytes_ltb}

pub ltb_asym : (x y : Bytes) → bytes_ltb x y ≡ true → bytes_ltb y x ≡ false
unfolding bytes_ltb
ltb_asym [] _ h = refl
ltb_asym (x ∷ xs) [] h = cc
ltb_asym (x ∷ xs) (y ∷ ys) h = ground (arith, ltb_asym xs ys)

pub ltb_cut : (x y z : Bytes) → bytes_ltb z x ≡ true → bytes_ltb z y ≡ false → bytes_ltb y x ≡ true
unfolding bytes_ltb
ltb_cut [] y z h k = cc
ltb_cut (x ∷ xs) [] z h k = refl
ltb_cut (x ∷ xs) (y ∷ ys) [] h k = cc
ltb_cut (x ∷ xs) (y ∷ ys) (z ∷ zs) h k = ground (arith, ltb_cut xs ys zs)

pub ltb_tie : (x y : Bytes) → bytes_ltb x y ≡ false → bytes_ltb y x ≡ false → bytes_eq x y ≡ true
unfolding bytes_ltb bytes_eq
ltb_tie [] [] h k = refl
ltb_tie [] (y ∷ ys) h k = cc
ltb_tie (x ∷ xs) [] h k = cc
ltb_tie (x ∷ xs) (y ∷ ys) h k = ground (arith, ltb_tie xs ys)

-- A text is not below its prefix.
pub prefix_floor : (p x : Bytes) → starts_with p x ≡ true → bytes_ltb x p ≡ false
unfolding bytes_ltb starts_with
prefix_floor [] x h = refl
prefix_floor (b ∷ p) [] h = cc
prefix_floor (b ∷ p) (x ∷ xs) h = ground (arith, prefix_floor p xs)

-- What stands between a prefix and a text that has it has the prefix too.
pub prefix_between :
    (p m x : Bytes)
    → starts_with p x ≡ true
    → bytes_ltb m p ≡ false
    → bytes_ltb x m ≡ false
    → starts_with p m ≡ true
unfolding bytes_ltb starts_with
prefix_between [] m x s h k = refl
prefix_between (b ∷ p) m [] s h k = cc
prefix_between (b ∷ p) [] (x ∷ xs) s h k = cc
prefix_between (b ∷ p) (m ∷ ms) (x ∷ xs) s h k = ground (arith, prefix_between p ms xs)
