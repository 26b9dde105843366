-- ===== src/Stream/Touched/Covers.antt =====
-- The paths that are judged: the ones that events name, and all above them.
use mathlib.Core.Path.{subst}
use mathlib.Core.Option.{some-injective}
use mathlib.Core.List.{Memᴰ}
use mathlib.Core.List.Memᴰ.{cases_cons, head, tail, append_left, append_right}
use jawohl.Prelude.{
  ℕ, zero, suc, ◌+◌, ◌<◌, Bool, Bool-cases, Option-cases, true, false, List, [], ◌∷◌, ◌++◌, Option,
  none, some, ◌≡◌, ◌⊎◌, inl, inr, refl, sym, ap, ◌∙◌, arith, ◌==◌, length, length-append, take,
  take_append, Bytes, bytes_eq, bytes_eq_iff,
}
use jawohl.Event.{Event, path}
use jawohl.Stream.Touched.{
  rfind_slash, is_seen, note_seen, above, walk_up, gather, touched_paths, with_path, or_first,
  shifted,
}

-- `q` is `p`, or the path of a value around it.
abbrev pub Covers : Bytes → Bytes → Type 0
Covers q p = (q ≡ p) ⊎ ((rest : Bytes) × (p ≡ q ++ b'/' ∷ rest))

is_seen-Mem : (p : Bytes) (seen : List Bytes) → is_seen p seen ≡ true → Memᴰ p seen
unfolding is_seen
is_seen-Mem p [] e = cc
is_seen-Mem p (s ∷ seen) e = elim (Bool-cases (bytes_eq s p)) [
  | inl h ↦ head (sym ((bytes_eq_iff s p).0 h))
  | inr h ↦ tail (is_seen-Mem p seen (ground arith))
]

note_seen-Mem : (p : Bytes) (seen : List Bytes) → Memᴰ p (note_seen p seen)
unfolding note_seen
note_seen-Mem p seen = elim (Bool-cases (is_seen p seen)) [
  | inl e ↦ rw e (is_seen-Mem p seen e)
  | inr e ↦ rw e (append_right seen (head refl))
]

note_seen-keeps : (p q : Bytes) (seen : List Bytes) → Memᴰ q seen → Memᴰ q (note_seen p seen)
unfolding note_seen
note_seen-keeps p q seen m = elim (Bool-cases (is_seen p seen)) [
  | inl e ↦ rw e m
  | inr e ↦ rw e (append_left (p ∷ []) m)
]

walk_up-keeps :
    (fuel : ℕ) (p q : Bytes) (seen : List Bytes) → Memᴰ q seen → Memᴰ q (walk_up fuel p seen)
unfolding walk_up
walk_up-keeps zero p q seen m = note_seen-keeps p q seen m
walk_up-keeps (suc fuel) p q seen m = elim (Option-cases (above p)) [
  | inl e ↦ rw e (note_seen-keeps p q seen m)
  | inr (a, e) ↦ rw e (walk_up-keeps fuel a q (note_seen p seen) (note_seen-keeps p q seen m))
]

walk_up-Mem : (fuel : ℕ) (p : Bytes) (seen : List Bytes) → Memᴰ p (walk_up fuel p seen)
unfolding walk_up
walk_up-Mem zero p seen = note_seen-Mem p seen
walk_up-Mem (suc fuel) p seen = elim (Option-cases (above p)) [
  | inl e ↦ rw e (note_seen-Mem p seen)
  | inr (a, e) ↦ rw e (walk_up-keeps fuel a p (note_seen p seen) (note_seen-Mem p seen))
]

-- Where the last slash of `q/r` stands.
abbrev found : ℕ → Option ℕ → ℕ
found n none = n
found n (some j) = n + suc j

-- What is left of `q/r` before its last slash.
abbrev kept : Bytes → Bytes → Option ℕ → Bytes
kept q r none = q
kept q r (some j) = q ++ b'/' ∷ take j r

found-suc : (n : ℕ) (o : Option ℕ) → found (suc n) o ≡ suc (found n o)
found-suc n none = refl
found-suc n (some j) = omega arith

rfind-append : (q r : Bytes) → rfind_slash (q ++ b'/' ∷ r) ≡ some (found (length q) (rfind_slash r))
unfolding rfind_slash
rfind-append [] r = elim (Option-cases (rfind_slash r)) [
  | inl e ↦ rw e refl
  | inr (j, e) ↦ rw e (ground arith)
]
rfind-append (b ∷ bs) r = rw (rfind-append bs r, found-suc (length bs) (rfind_slash r)) refl

plus : (j : ℕ) → 0 + suc j ≡ suc j
plus j = omega arith

kept-cons : (b : ℕ) (q r : Bytes) (o : Option ℕ) → b ∷ kept q r o ≡ kept (b ∷ q) r o
kept-cons b q r none = refl
kept-cons b q r (some j) = refl

take-kept : (q r : Bytes) (o : Option ℕ) → take (found (length q) o) (q ++ b'/' ∷ r) ≡ kept q r o
take-kept q r none = take_append q (b'/' ∷ r)
take-kept [] r (some j) = ap (λ n. take n (b'/' ∷ r)) (plus j)
take-kept (b ∷ bs) r (some j) =
    rw (found-suc (length bs) (some j)) (ap (λ x. b ∷ x) (take-kept bs r (some j)))

above-append :
    (b : ℕ) (bs r : Bytes) → above ((b ∷ bs) ++ b'/' ∷ r) ≡ some (kept (b ∷ bs) r (rfind_slash r))
unfolding above
above-append b bs r =
    rw (rfind-append (b ∷ bs) r, found-suc (length bs) (rfind_slash r))
      (ap (λ x. some (b ∷ x)) (take-kept bs r (rfind_slash r))
        ∙ ap (λ x. some x) (kept-cons b bs r (rfind_slash r)))

or_first-lt :
    (here : Bool) (o : Option ℕ) (n j : ℕ)
    → ((i : ℕ) → o ≡ some i → i < n)
    → or_first here (shifted o) ≡ some j
    → j < suc n
or_first-lt true none n j below e = omega (arith, some-injective 0 j e)
or_first-lt false none n j below e = cc
or_first-lt here (some i) n j below e = omega (arith, some-injective (suc i) j e, below i refl)

rfind-lt : (r : Bytes) (j : ℕ) → rfind_slash r ≡ some j → j < length r
unfolding rfind_slash
rfind-lt [] j e = cc
rfind-lt (b ∷ bs) j e =
    or_first-lt (b == b'/') (rfind_slash bs) (length bs) j (λ i. rfind-lt bs i) e

length-take_lt : (r : Bytes) (j : ℕ) → j < length r → length (take j r) < length r
length-take_lt [] j l = absurd (omega arith)
length-take_lt (b ∷ bs) zero l = omega arith
length-take_lt (b ∷ bs) (suc j) l = omega (arith, length-take_lt bs j (omega arith))

walk_up-outer :
    (fuel : ℕ) (b : ℕ) (bs r : Bytes) (seen : List Bytes)
    → length r < fuel
    → Memᴰ (b ∷ bs) (walk_up fuel ((b ∷ bs) ++ b'/' ∷ r) seen)
unfolding walk_up
walk_up-outer zero b bs r seen l = absurd (omega arith)
walk_up-outer (suc fuel) b bs r seen l =
    rw (above-append b bs r) (elim (Option-cases (rfind_slash r)) [
      | inl e ↦ rw e (walk_up-Mem fuel (b ∷ bs) _)
      | inr (j, e) ↦ rw e (
          walk_up-outer fuel b bs (take j r) _ (omega (arith, length-take_lt r j (rfind-lt r j e))))
    ])

walk_up-Covers :
    (p q : Bytes) (seen : List Bytes)
    → Covers q p
    → Memᴰ q (note_seen [] (walk_up (length p) p seen))
walk_up-Covers p q seen (inl e) =
    note_seen-keeps [] q _
      (subst (λ x. Memᴰ x (walk_up (length p) p seen)) (sym e) (walk_up-Mem (length p) p seen))
walk_up-Covers p [] seen (inr (r, e)) = note_seen-Mem [] _
walk_up-Covers p (b ∷ bs) seen (inr (r, e)) = note_seen-keeps [] (b ∷ bs) _ (
    subst (λ x. Memᴰ (b ∷ bs) (walk_up (length x) x seen)) (sym e)
      (walk_up-outer (length ((b ∷ bs) ++ b'/' ∷ r)) b bs r seen
        (omega (arith, length-append (b ∷ bs) (b'/' ∷ r)))))

gather-keeps :
    (ts : List Bytes) (q : Bytes) (seen : List Bytes) → Memᴰ q seen → Memᴰ q (gather ts seen)
unfolding gather
gather-keeps [] q seen m = m
gather-keeps (p ∷ ts) q seen m =
    gather-keeps ts q _ (note_seen-keeps [] q _ (walk_up-keeps (length p) p q seen m))

gather-Covers :
    (ts : List Bytes) (p q : Bytes) (seen : List Bytes)
    → Memᴰ p ts
    → Covers q p
    → Memᴰ q (gather ts seen)
unfolding gather
gather-Covers (t ∷ ts) p q seen m c = elim (cases_cons m) [
  | inl e ↦ gather-keeps ts q _ (walk_up-Covers t q seen (subst (Covers q) e c))
  | inr deeper ↦ gather-Covers ts p q _ deeper c
]
gather-Covers [] p q seen m c = elim m [ ]

with_path-keeps :
    (o : Option Bytes) (p : Bytes) (ps : List Bytes) → Memᴰ p ps → Memᴰ p (with_path o ps)
with_path-keeps none p ps m = m
with_path-keeps (some q) p ps m = tail m

touched_paths-Mem :
    (e : Event) (es : List Event) (p : Bytes)
    → Memᴰ e es
    → path e ≡ some p
    → Memᴰ p (touched_paths es)
unfolding touched_paths
touched_paths-Mem e (d ∷ es) p m h = elim (cases_cons m) [
  | inl same ↦ rw (ap path (sym same) ∙ h) (head refl)
  | inr deeper ↦ with_path-keeps (path d) p _ (touched_paths-Mem e es p deeper h)
]
touched_paths-Mem e [] p m h = elim m [ ]

-- A path that an event names, and every path above, is judged.
pub judged_Covers :
    (e : Event) (es : List Event) (p q : Bytes)
    → Memᴰ e es
    → path e ≡ some p
    → Covers q p
    → Memᴰ q (gather (touched_paths es) [])
judged_Covers e es p q m h c =
    gather-Covers (touched_paths es) p q [] (touched_paths-Mem e es p m h) c
