-- ===== src/Parser/Stable/Frames.antt =====
-- The settled paths when a frame is filled or closed.
use jawohl.Prelude.{
  ◌≡◌, refl, ap, ◌∙◌, List, [], ◌∷◌, ◌++◌, append_assoc, Option, none, some, Bytes,
}
use jawohl.Value.{Value, push_item, push_member, child}
use jawohl.Parser.State.{Frame, object, array, or_default}
use jawohl.Parser.Structure.{frame_value}
use jawohl.Parser.Snapshot.{frame_snapshot}
use jawohl.Stream.Status.{descend}
use jawohl.Parser.Stable.{
  attached, top, through, Frozen, at_root, inner, outer, child-attached, child-slot, descend-child,
}

-- The frame, with the value in its slot.
abbrev pub filled : Frame → Value → Frame
filled (object ms k n) v = object (push_member ms (or_default k) v) none n
filled (array vs n) v = array (push_item vs v) n

attached-child : (f : Frame) (t : Bytes) → child (frame_value f) t ≡ attached f t
unfolding child
attached-child (object ms k n) t = refl
attached-child (array vs n) t = refl

attached-filled :
    (f : Frame) (v : Value) (t : Bytes)
    → attached (filled f v) t ≡ child (frame_snapshot f (some v)) t
unfolding child frame_snapshot
attached-filled (object ms k n) v t = refl
attached-filled (array vs n) v t = refl

module _ {tokens : List Bytes} {u : Value} where
  -- A value is put into the slot of the innermost frame.
  pub filled-Frozen :
      {f : Frame} {below : List Frame} (v : Value) (root : Option Value)
      → Frozen tokens u (f ∷ below) root
      → Frozen tokens u (filled f v ∷ below) root
  filled-Frozen {f} v root (inner before rest t w l e d eq) =
      inner before rest t w l (attached-filled f v t ∙ child-attached f (some v) t e) d eq
  filled-Frozen v root (outer h) = outer h

  -- The innermost frame is closed, and its value put into the slot of the frame below.
  pub closed-Frozen :
      {f g : Frame} {below : List Frame} (root : Option Value)
      → Frozen tokens u (f ∷ g ∷ below) root
      → Frozen tokens u (filled g (frame_value f) ∷ below) root
  closed-Frozen {f} {g} root (inner before rest t w (through {before = start} k l e s eq') a d eq) =
      inner start (t ∷ rest) k (frame_value f) l
        (attached-filled g (frame_value f) k ∙ child-slot g (frame_value f) k e s)
        (descend-child t rest (frame_value f) (attached-child f t ∙ a) ∙ d)
        (eq ∙ ap (λ ts. ts ++ t ∷ rest) eq' ∙ append_assoc start (k ∷ []) (t ∷ rest))
  closed-Frozen {f} root (outer h) = filled-Frozen (frame_value f) root h

  -- The outermost frame is closed, and its value is the root.
  pub root-Frozen :
      {f : Frame} (root : Option Value)
      → Frozen tokens u (f ∷ []) root
      → Frozen tokens u [] (some (frame_value f))
  root-Frozen {f} root (inner before rest t w top a d eq) = at_root (
      ap (λ ts. descend ts (frame_value f)) eq
      ∙ descend-child t rest (frame_value f) (attached-child f t ∙ a)
      ∙ d)

  pub rootless :
      {stack : List Frame} {root : Option Value}
      → stack ≡ []
      → root ≡ none
      → Frozen tokens u stack root
      → ⊥
  rootless e n (at_root h) = cc
  rootless e n (inner before rest t w l a d eq) = cc
  rootless e n (outer h) = cc
