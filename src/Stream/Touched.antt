-- ===== src/Stream/Touched.antt =====
-- src/lib.rs: the paths that `judge_touched_paths` judges.
pub mod Covers
use jawohl.Prelude.{
  ℕ, zero, suc, Bool, true, false, List, [], ◌∷◌, ◌++◌, Option, none, some, ◌==◌, if◌then◌else◌,
  length, take, Bytes, bytes_eq,
}
use jawohl.Event.{Event, path}

-- `p.rfind('/')`
abbrev pub shifted : Option ℕ → Option ℕ
shifted none = none
shifted (some i) = some (suc i)

abbrev pub or_first : Bool → Option ℕ → Option ℕ
or_first here (some i) = some i
or_first true none = some 0
or_first false none = none

unfoldable pub rfind_slash : Bytes → Option ℕ
rfind_slash [] = none
rfind_slash (b ∷ bs) = or_first (b == b'/') (shifted (rfind_slash bs))

unfoldable pub is_seen : Bytes → List Bytes → Bool
is_seen p [] = false
is_seen p (s ∷ seen) = let rest = is_seen p seen in if bytes_eq s p then true else rest

unfoldable pub note_seen : Bytes → List Bytes → List Bytes
unfolding is_seen
note_seen p seen = if is_seen p seen then seen else seen ++ p ∷ []

abbrev cut : Option ℕ → Bytes → Option Bytes
cut none p = none
cut (some zero) p = none
cut (some (suc i)) p = some (take (suc i) p)

-- The path above, unless it is the root.
unfoldable pub above : Bytes → Option Bytes
unfolding rfind_slash
above p = cut (rfind_slash p) p

abbrev climb : (Bytes → List Bytes → List Bytes) → Option Bytes → List Bytes → List Bytes
climb again none seen = seen
climb again (some q) seen = again q seen

-- The inner loop. A path becomes shorter each time, so its length is fuel enough.
unfoldable pub walk_up : ℕ → Bytes → List Bytes → List Bytes
unfolding above note_seen
walk_up zero p seen = note_seen p seen
walk_up (suc fuel) p seen = climb (λ q s. walk_up fuel q s) (above p) (note_seen p seen)

unfoldable pub gather : List Bytes → List Bytes → List Bytes
unfolding walk_up
gather [] seen = seen
gather (p ∷ touched) seen = gather touched (note_seen [] (walk_up (length p) p seen))

abbrev pub with_path : Option Bytes → List Bytes → List Bytes
with_path none ps = ps
with_path (some p) ps = p ∷ ps

unfoldable pub touched_paths : List Event → List Bytes
touched_paths [] = []
touched_paths (e ∷ es) = with_path (path e) (touched_paths es)
