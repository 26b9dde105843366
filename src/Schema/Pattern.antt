-- ===== src/Schema/Pattern.antt =====
-- src/schema/pattern.rs: `pattern`. The automaton is regex-automata's: its operations are the fields
-- of `Dfa`.
use jawohl.Prelude.{
  ℕ, Bool, true, false, not, [], ◌∷◌, Option, none, some, if◌then◌else◌, Bytes, starts_with, codes,
}

-- `dense::DFA`, with its states `S`.
pub record Dfa (D S : Type 0) : Type 0 where
  pub compiled : Bytes → Option D
  pub start_state_forward : D → Bytes → Option S
  pub next_state : D → S → ℕ → S
  pub is_dead_state : D → S → Bool
  -- `try_search_fwd(..).ok().flatten().is_some()`
  pub search_fwd : D → Bytes → Bool

pub record Pattern (D : Type 0) : Type 0 where
  pub source : Bytes
  pub dfa : D
  pub supports_early_rejection : Bool

module _ {D S : Type 0} (ops : Dfa D S) where
  abbrev pattern_of : Bytes → Option D → Option (Pattern D)
  pattern_of source none = none
  pattern_of source (some d) = some (record {
    source = source;
    dfa = d;
    supports_early_rejection = starts_with (codes "^") source;
  })

  unfoldable pub compile : Bytes → Option (Pattern D)
  compile source = pattern_of source (ops.compiled source)

  -- The loop over the bytes of the prefix.
  unfoldable pub stays_live : D → S → Bytes → Bool
  stays_live d state [] = true
  stays_live d state (b ∷ bs) =
      let next = ops.next_state d state b in
      let rest = stays_live d next bs in if ops.is_dead_state d next then false else rest

  abbrev pub live_from : D → Option S → Bytes → Bool
  live_from d none prefix = true
  live_from d (some state) prefix = stays_live d state prefix

  unfoldable pub prefix_is_live : Pattern D → Bytes → Bool
  unfolding stays_live
  prefix_is_live p prefix =
      if not p.supports_early_rejection
      then true
      else live_from p.dfa (ops.start_state_forward p.dfa prefix) prefix

  unfoldable pub matches : Pattern D → Bytes → Bool
  matches p value = ops.search_fwd p.dfa value
