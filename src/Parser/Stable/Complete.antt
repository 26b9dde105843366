-- ===== src/Parser/Stable/Complete.antt =====
-- The status `complete` of src/lib.rs and the settled paths.
use jawohl.Prelude.{
  ◌≡◌, refl, sym, ap, ◌∙◌, true, false, List, [], ◌∷◌, append-nil, Option, none, some, arith, Bytes,
}
use jawohl.Value.{Value, complete, child, is_complete}
use jawohl.Parser.State.{Frame, Parser, Tok, idle, str, num, lit}
use jawohl.Parser.Snapshot.{
  frame_snapshot, rebuild, or_else, outer_slots, token_value, snapshot, open_path, open_frame_path,
}
use jawohl.Stream.Status.{
  descend, descend_from, is_prefix, prefix_of_open, is_open_container, status_at, status_of,
}
use jawohl.Parser.Stable.{Frozen, at_root, inner, rebuild-some}
use jawohl.Parser.Stable.Steps.{Settled}
use jawohl.Parser.Stable.Walk.{
  AllCanonical, Goes, finished, slot, goes, Walk, settled, passes, stops, descend-split,
  is_prefix_self, outward, some_inj, walk,
}

-- A token in flight is no finished value, and has no children.
record IsLeaf (w : Value) : Type 0 where
  unfinished : is_complete w ≡ false
  childless : (t : Bytes) → child w t ≡ none

token-IsLeaf : (t : Tok) (w : Value) → token_value t ≡ some w → IsLeaf w
unfolding token_value is_complete child
token-IsLeaf idle w e = cc
token-IsLeaf (str decoded state true pending) w e = cc
token-IsLeaf (str decoded state false pending) w e =
    rw (sym (some_inj e)) (record { unfinished = refl; childless = λ t. refl })
token-IsLeaf (num text state) w e =
    rw (sym (some_inj e)) (record { unfinished = refl; childless = λ t. refl })
token-IsLeaf (lit text) w e =
    rw (sym (some_inj e)) (record { unfinished = refl; childless = λ t. refl })

leaf-absurd :
    (tokens : List Bytes) (w v : Value)
    → IsLeaf w
    → descend tokens w ≡ some v
    → is_complete v ≡ true
    → ⊥
unfolding descend
leaf-absurd [] w v l e c = ground (arith, l.unfinished)
leaf-absurd (t ∷ ts) w v l e c = ground (arith, l.childless t)

module _ {tokens : List Bytes} {v : Value} (t : Tok) (root : Option Value)
    (canonical : AllCanonical tokens) (finished_v : is_complete v ≡ true) where
  in_frame :
      (f : Frame) (below : List Frame)
      → is_prefix tokens (outer_slots below) ≡ false
      → Walk tokens v below (frame_snapshot f (token_value t))
      → Frozen tokens v (f ∷ below) root
  in_frame f below closed (settled h) = outward f below h root
  in_frame f below closed (stops h) = absurd (ground (arith, h canonical))
  in_frame f below closed (passes before [] l eq d c) =
      let same : tokens ≡ outer_slots below = eq ∙ append-nil before ∙ c canonical in
      absurd (
        ground (
          arith,
          is_prefix_self (outer_slots below),
          ap (λ ts. is_prefix ts (outer_slots below)) same,
        ))
  in_frame f below closed (passes before (k ∷ rest) l eq d c) =
      let (y, e, d') = descend-split k rest (frame_snapshot f (token_value t)) v d in
      at_token y (goes f (token_value t) k y e) d'
    where
      at_token :
          (y : Value)
          → Goes f (token_value t) k y
          → descend rest y ≡ some v
          → Frozen tokens v (f ∷ below) root
      at_token y (finished u e same) d' =
          inner before rest k u l e (ap (descend rest) (sym same) ∙ d') eq
      at_token y (slot e s same) d' =
          absurd (leaf-absurd rest y v (token-IsLeaf t y same) d' finished_v)

  at_top :
      (x : Option Value) (root : Option Value)
      → token_value t ≡ x
      → descend_from tokens (or_else x root) ≡ some v
      → Frozen tokens v [] root
  at_top (some w) root e h = absurd (leaf-absurd tokens w v (token-IsLeaf t w e) h finished_v)
  at_top none (some r) e h = at_root h
  at_top none none e h = cc

  in_flight :
      (stack : List Frame)
      → descend_from tokens (or_else (rebuild stack (token_value t)) root) ≡ some v
      → prefix_of_open tokens (open_path stack) ≡ false
      → Frozen tokens v stack root
  unfolding rebuild
  in_flight [] h closed = at_top (token_value t) root refl h
  in_flight (f ∷ below) h closed =
      let w = frame_snapshot f (token_value t) in
      in_frame f below closed
        (walk below w tokens v (ap (descend_from tokens) (sym (rebuild-some below w root)) ∙ h))

complete-value :
    (tokens : List Bytes) (p : Parser) (x : Option Value)
    → status_of tokens p x ≡ complete
    → (v : Value) × (x ≡ some v) × (is_complete v ≡ true) × (is_open_container tokens p ≡ false)
complete-value tokens p none e = cc
complete-value tokens p (some v) e = (v, refl, ground arith, ground arith)

-- A path that is reported complete leads to a finished value.
pub complete-Settled :
    (tokens : List Bytes) (p : Parser)
    → AllCanonical tokens
    → status_at tokens p ≡ complete
    → (v : Value) × (descend_from tokens (snapshot p) ≡ some v)
      × (is_complete v ≡ true)
      × Settled tokens v p
unfolding status_at is_open_container snapshot open_frame_path
complete-Settled tokens p canonical e =
    let (v, found, whole, closed) = complete-value tokens p (descend_from tokens (snapshot p)) e in
    (v, found, whole, in_flight p.tok p.root canonical whole p.stack found closed)
