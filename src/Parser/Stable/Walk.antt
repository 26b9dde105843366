-- ===== src/Parser/Stable/Walk.antt =====
-- Where a path leads in a document in flight.
use jawohl.Prelude.{
  ℕ, zero, suc, Bool-cases, ◌≡◌, refl, sym, ap, ◌∙◌, inl, inr, true, List, [], ◌∷◌, ◌++◌,
  append_assoc, append-nil, Option, none, some, arith, Bytes, bytes_eq, bytes_eq_iff, Option-cases,
}
use mathlib.Core.Path.{subst, ap₂}
use jawohl.Pointer.{parse_usize, decimal}
use jawohl.Value.{Value, child, get_item, at_index, push_item, items_len, Values, nil, cons}
use jawohl.Parser.State.{Frame, object, array, or_default}
use jawohl.Parser.Snapshot.{frame_snapshot, rebuild, slot_name, outer_slots}
use jawohl.Stream.Status.{descend, descend_from, is_prefix}
use jawohl.Parser.Stable.{
  attached, SlotAt, Leads, top, through, Frozen, inner, outer, find-push_new, child-attached,
}
use jawohl.Parser.Stable.Frames.{rootless}

-- A token that is read as an index is spelled as that index is printed.
abbrev pub IsCanonical : Bytes → Type 0
IsCanonical t = (i : ℕ) → parse_usize t ≡ some i → t ≡ decimal i

abbrev pub AllCanonical : List Bytes → Type 0
AllCanonical [] = Unit
AllCanonical (t ∷ ts) = IsCanonical t × AllCanonical ts

-- Where a token of a container in flight leads: to a finished child, or to the slot.
pub data Goes (f : Frame) (x : Option Value) (t : Bytes) (y : Value) : Type 0 where
  finished : (u : Value) → attached f t ≡ some u → y ≡ u → Goes f x t y
  slot : attached f t ≡ none → SlotAt f t → x ≡ some y → Goes f x t y

item-slot :
    (vs : Values) (i : ℕ) (w y : Value)
    → get_item vs i ≡ none
    → get_item (push_item vs w) i ≡ some y
    → (i ≡ items_len vs) × (w ≡ y)
unfolding get_item push_item
item-slot nil zero w y e h = (refl, ground arith)
item-slot nil (suc i) w y e h = cc
item-slot (cons x vs) zero w y e h = cc
item-slot (cons x vs) (suc i) w y e h = let (a, b) = item-slot vs i w y e h in (ap suc a, b)

pub some_inj : {x y : Value} → some x ≡ some y → x ≡ y
some_inj e = cc

unattached :
    (f : Frame) (x : Option Value) {t : Bytes} {y : Value}
    → attached f t ≡ none
    → child (frame_snapshot f x) t ≡ some y
    → Goes f x t y
unfolding child frame_snapshot
unattached (object ms k n) none e h = cc
unattached (object ms k n) (some w) {t} {y} e h = elim (Bool-cases (bytes_eq (or_default k) t)) [
  | inl same ↦
      slot e ((bytes_eq_iff (or_default k) t).0 same)
        (ground (arith, find-push_new (or_default k) t ms w e))
  | inr other ↦ absurd (ground (arith, find-push_new (or_default k) t ms w e))
]
unattached (array vs n) none e h = cc
unattached (array vs n) (some w) {t} {y} e h = elim (Option-cases (parse_usize t)) [
  | inl e' ↦ absurd (ground arith)
  | inr (i, e') ↦
      let (at_end, found) =
        item-slot vs i w y (ap (λ o. at_index o vs) (sym e') ∙ e)
          (ap (λ o. at_index o (push_item vs w)) (sym e') ∙ h) in
      slot e (e' ∙ ap some at_end) (ap some found)
]

pub goes :
    (f : Frame) (x : Option Value) (t : Bytes) (y : Value)
    → child (frame_snapshot f x) t ≡ some y
    → Goes f x t y
unfolding child frame_snapshot
goes f x t y h = elim (Option-cases (attached f t)) [
  | inr (u, e) ↦ finished u e (some_inj (sym h ∙ child-attached f x t e))
  | inl e ↦ unattached f x e h
]

-- The walk along the tokens ends in a finished value, or stops at or passes the value in flight.
pub data Walk (tokens : List Bytes) (v : Value) (below : List Frame) (w : Value) : Type 0 where
  settled : ((root : Option Value) → Frozen tokens v below root) → Walk tokens v below w
  passes :
      (before rest : List Bytes)
      → Leads below before
      → tokens ≡ before ++ rest
      → descend rest w ≡ some v
      → (AllCanonical tokens → before ≡ outer_slots below)
      → Walk tokens v below w
  stops :
      (AllCanonical tokens → is_prefix tokens (outer_slots below) ≡ true) → Walk tokens v below w

pub descend-split :
    (t : Bytes) (ts : List Bytes) (x v : Value)
    → descend (t ∷ ts) x ≡ some v
    → (y : Value) × (child x t ≡ some y) × (descend ts y ≡ some v)
unfolding descend
descend-split t ts x v h = elim (Option-cases (child x t)) [
  | inl e ↦ absurd (ground arith)
  | inr (y, e) ↦ (y, e, ground arith)
]

bytes_eq_refl : (t : Bytes) → bytes_eq t t ≡ true
bytes_eq_refl t = (bytes_eq_iff t t).1 refl

is_prefix-append :
    (ts os more : List Bytes) → is_prefix ts os ≡ true → is_prefix ts (os ++ more) ≡ true
unfolding is_prefix
is_prefix-append [] os more h = refl
is_prefix-append (t ∷ ts) [] more h = cc
is_prefix-append (t ∷ ts) (o ∷ os) more h = ground (arith, is_prefix-append ts os more)

pub is_prefix_self : (ts : List Bytes) → is_prefix ts ts ≡ true
unfolding is_prefix
is_prefix_self [] = refl
is_prefix_self (t ∷ ts) = rw (bytes_eq_refl t) (is_prefix_self ts)

IsCanonical-at :
    (before rest : List Bytes) (t : Bytes) → AllCanonical (before ++ t ∷ rest) → IsCanonical t
IsCanonical-at [] rest t c = c.0
IsCanonical-at (b ∷ bs) rest t c = IsCanonical-at bs rest t c.1

slot-named : (g : Frame) (t : Bytes) → SlotAt g t → IsCanonical t → t ≡ slot_name g
slot-named (object ms k n) t s c = sym s
slot-named (array vs n) t s c = c (items_len vs) s

pub outward :
    {tokens : List Bytes} {v : Value} (g : Frame) (below : List Frame)
    → ((root : Option Value) → Frozen tokens v below root)
    → (root : Option Value) → Frozen tokens v (g ∷ below) root
outward g [] h root = absurd (rootless refl refl (h none))
outward g (f ∷ below) h root = outer (h root)

module _ {tokens : List Bytes} {v : Value} (g : Frame) (below : List Frame) (w : Value) where
  -- One more frame, whose slot is filled by `w`.
  passed :
      (before rest : List Bytes)
      → Leads below before
      → tokens ≡ before ++ rest
      → descend rest (frame_snapshot g (some w)) ≡ some v
      → (AllCanonical tokens → before ≡ outer_slots below)
      → Walk tokens v (g ∷ below) w
  unfolding outer_slots
  passed before [] l eq d c = stops λ a.
      subst (λ ts. is_prefix ts (outer_slots below ++ slot_name g ∷ []) ≡ true)
        (sym (eq ∙ append-nil before ∙ c a))
        (is_prefix-append (outer_slots below) (outer_slots below) (slot_name g ∷ [])
          (is_prefix_self (outer_slots below)))
  passed before (t ∷ rest) l eq d c =
      let (y, e, d') = descend-split t rest (frame_snapshot g (some w)) v d in
      at_token y (goes g (some w) t y e) d'
    where
      at_token :
          (y : Value) → Goes g (some w) t y → descend rest y ≡ some v → Walk tokens v (g ∷ below) w
      at_token y (finished u e same) d' =
          settled λ root. inner before rest t u l e (ap (descend rest) (sym same) ∙ d') eq
      at_token y (slot e s same) d' =
          passes (before ++ t ∷ []) rest (through t l e s refl)
            (eq ∙ sym (append_assoc before (t ∷ []) rest)) (ap (descend rest) (some_inj same) ∙ d')
            (λ a.
              ap₂ (λ (xs : List Bytes) (x : Bytes). xs ++ x ∷ []) (c a)
                (slot-named g t s (IsCanonical-at before rest t (subst AllCanonical eq a))))

  widened : Walk tokens v below (frame_snapshot g (some w)) → Walk tokens v (g ∷ below) w
  unfolding outer_slots
  widened (settled h) = settled (outward g below h)
  widened (passes before rest l eq d c) = passed before rest l eq d c
  widened (stops h) = stops λ a. is_prefix-append tokens (outer_slots below) _ (h a)

pub walk :
    (below : List Frame) (w : Value) (tokens : List Bytes) (v : Value)
    → descend_from tokens (rebuild below (some w)) ≡ some v
    → Walk tokens v below w
unfolding rebuild outer_slots
walk [] w tokens v h = passes [] tokens top refl h (λ _. refl)
walk (g ∷ below) w tokens v h =
    widened g below w (walk below (frame_snapshot g (some w)) tokens v h)
