-- ===== src/Parser/Stable.antt =====
-- The paths of src/parser.rs that are settled: a predicate on the open frames and the root.
pub mod Frames
pub mod Steps
pub mod Walk
pub mod Complete
pub mod Later
pub mod Refused
use jawohl.Pointer.{parse_usize}
use jawohl.Prelude.{
  ℕ, zero, suc, ◌≡◌, refl, ap, ◌∙◌, Bool, true, false, List, [], ◌∷◌, ◌++◌, append_assoc, Option,
  none, some, arith, if◌then◌else◌, Bytes, bytes_eq, bytes_eq_iff,
}
use jawohl.Value.{
  Value, Values, Members, nil, cons, end, member, push_item, push_member, get_item, find_member,
  at_index, items_len, child,
}
use jawohl.Parser.State.{Frame, object, array, or_default}
use jawohl.Parser.Structure.{frame_value}
use jawohl.Parser.Snapshot.{frame_snapshot, rebuild, or_else}
use jawohl.Stream.Status.{descend, descend_from}

-- The finished child of an open container.
abbrev pub attached : Frame → Bytes → Option Value
attached (object members pending_key n) t = find_member t members
attached (array items n) t = at_index (parse_usize t) items

-- The token names the slot that the frame fills next.
abbrev pub SlotAt : Frame → Bytes → Type 0
SlotAt (object members pending_key n) t = or_default pending_key ≡ t
SlotAt (array items n) t = parse_usize t ≡ some (items_len items)

-- The tokens lead through the slots of the frames, and no finished sibling hides a slot.
pub data Leads : List Frame → List Bytes → Type 0 where
  top : Leads [] []
  through :
      {f : Frame} {below : List Frame} {before tokens : List Bytes} (t : Bytes)
      → Leads below before
      → attached f t ≡ none
      → SlotAt f t
      → tokens ≡ before ++ t ∷ []
      → Leads (f ∷ below) tokens

-- The tokens lead to `v` by way of a finished value.
pub data Frozen (tokens : List Bytes) (v : Value) : List Frame → Option Value → Type 0 where
  at_root : {r : Value} → descend tokens r ≡ some v → Frozen tokens v [] (some r)
  inner :
      {f : Frame} {below : List Frame} {root : Option Value} (before rest : List Bytes) (t : Bytes)
      (u : Value)
      → Leads below before
      → attached f t ≡ some u
      → descend rest u ≡ some v
      → tokens ≡ before ++ t ∷ rest
      → Frozen tokens v (f ∷ below) root
  outer :
      {f g : Frame} {below : List Frame} {root : Option Value}
      → Frozen tokens v (g ∷ below) root
      → Frozen tokens v (f ∷ g ∷ below) root

pub get_item-push_old :
    (vs : Values) (i : ℕ) (v : Value) {u : Value}
    → get_item vs i ≡ some u
    → get_item (push_item vs v) i ≡ some u
unfolding get_item push_item
get_item-push_old nil i v e = cc
get_item-push_old (cons x vs) zero v e = e
get_item-push_old (cons x vs) (suc i) v e = get_item-push_old vs i v e

pub get_item-push_new :
    (vs : Values) (v : Value) → get_item (push_item vs v) (items_len vs) ≡ some v
unfolding get_item push_item
get_item-push_new nil v = refl
get_item-push_new (cons x vs) v = get_item-push_new vs v

pub find-push_old :
    (k t : Bytes) (ms : Members) (v : Value) {u : Value}
    → find_member t ms ≡ some u
    → find_member t (push_member ms k v) ≡ some u
unfolding find_member push_member
find-push_old k t end v e = cc
find-push_old k t (member j w ms) v {u} e = ground (arith, find-push_old k t ms v {u = u})

pub find-push_new :
    (k t : Bytes) (ms : Members) (v : Value)
    → find_member t ms ≡ none
    → find_member t (push_member ms k v) ≡ (if bytes_eq k t then some v else none)
unfolding find_member push_member
find-push_new k t end v e = refl
find-push_new k t (member j w ms) v e = ground (arith, find-push_new k t ms v)

-- A finished child is still there when the slot is filled.
pub child-attached :
    (f : Frame) (x : Option Value) (t : Bytes) {u : Value}
    → attached f t ≡ some u
    → child (frame_snapshot f x) t ≡ some u
unfolding child frame_snapshot
child-attached (object ms k n) none t e = e
child-attached (object ms k n) (some w) t e = find-push_old (or_default k) t ms w e
child-attached (array vs n) none t e = e
child-attached (array vs n) (some w) t e = at-index (parse_usize t) e
  where
    at-index :
        (i : Option ℕ) {u : Value} → at_index i vs ≡ some u → at_index i (push_item vs w) ≡ some u
    at-index none e = cc
    at-index (some i) e = get_item-push_old vs i w e

-- The value in the slot is found there.
pub child-slot :
    (f : Frame) (w : Value) (t : Bytes)
    → attached f t ≡ none
    → SlotAt f t
    → child (frame_snapshot f (some w)) t ≡ some w
unfolding child frame_snapshot
child-slot (object ms k n) w t e s =
    find-push_new (or_default k) t ms w e ∙ rw ((bytes_eq_iff (or_default k) t).1 s)
child-slot (array vs n) w t e s = ap (λ i. at_index i (push_item vs w)) s ∙ get_item-push_new vs w

pub descend-child :
    (t : Bytes) (ts : List Bytes) (v : Value) {w : Value}
    → child v t ≡ some w
    → descend (t ∷ ts) v ≡ descend ts w
unfolding descend
descend-child t ts v e = rw (e, descend)

-- The tokens of the slots lead to the value in flight.
descend-Leads :
    {below : List Frame} {before : List Bytes} (w : Value) (rest : List Bytes)
    → Leads below before
    → descend_from (before ++ rest) (rebuild below (some w)) ≡ descend rest w
unfolding rebuild
descend-Leads w rest top = refl
descend-Leads w rest (through {f} {below} {before} t l e s eq) =
    ap (λ ts. descend_from (ts ++ rest) (rebuild below (some (frame_snapshot f (some w))))) eq
    ∙ ap (λ ts. descend_from ts (rebuild below (some (frame_snapshot f (some w)))))
        (append_assoc before (t ∷ []) rest)
    ∙ descend-Leads (frame_snapshot f (some w)) (t ∷ rest) l
    ∙ descend-child t rest (frame_snapshot f (some w)) (child-slot f w t e s)

pub rebuild-some :
    (stack : List Frame) (w : Value) (root : Option Value)
    → or_else (rebuild stack (some w)) root ≡ rebuild stack (some w)
unfolding rebuild
rebuild-some [] w root = refl
rebuild-some (f ∷ below) w root = rebuild-some below (frame_snapshot f (some w)) root

descend-Frozen_open :
    {tokens : List Bytes} {v : Value} {f : Frame} {below : List Frame} {root : Option Value}
    → Frozen tokens v (f ∷ below) root
    → (x : Option Value) → descend_from tokens (rebuild (f ∷ below) x) ≡ some v
unfolding rebuild
descend-Frozen_open {f = f} {below = below} (inner before rest t u l e d eq) x =
    ap (λ ts. descend_from ts (rebuild below (some (frame_snapshot f x)))) eq
    ∙ descend-Leads (frame_snapshot f x) (t ∷ rest) l
    ∙ descend-child t rest (frame_snapshot f x) (child-attached f x t e)
    ∙ d
descend-Frozen_open {f = f} (outer h) x = descend-Frozen_open h (some (frame_snapshot f x))

-- The path ends in a finished value, whatever is in flight.
pub descend-Frozen :
    {tokens : List Bytes} {v : Value} {stack : List Frame} {root : Option Value}
    → Frozen tokens v stack root
    → (x : Option Value) → (stack ≡ [] → x ≡ none)
    → descend_from tokens (or_else (rebuild stack x) root) ≡ some v
unfolding rebuild
descend-Frozen {tokens} (at_root {r} e) x idle =
    ap (λ y. descend_from tokens (or_else y (some r))) (idle refl) ∙ e
descend-Frozen {tokens} {stack = f ∷ below} {root} (inner before rest t u l e d eq) x idle =
    ap (descend_from tokens) (rebuild-some below (frame_snapshot f x) root)
    ∙ descend-Frozen_open {root = root} (inner before rest t u l e d eq) x
descend-Frozen {tokens} {stack = f ∷ below} {root} (outer h) x idle =
    ap (descend_from tokens) (rebuild-some below (frame_snapshot f x) root)
    ∙ descend-Frozen_open (outer h) x
