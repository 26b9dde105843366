-- ===== src/Schema/Compile/Ensures.antt =====
-- Postconditions of lowering.
use jawohl.Schema.Compile.State.{Compiler, Lowered, done, failed, spent, ◌>>=◌}

module _ {F D : Type 0} where
  -- What a success ends in.
  abbrev pub Ensures : {A : Type 0} → (A → Compiler F D → Type 0) → Lowered F D A → Type 0
  Ensures P (done a c) = P a c
  Ensures P (failed e) = Unit
  Ensures P spent = Unit

  pub Ensures-bind :
      {A B : Type 0} (P : A → Compiler F D → Type 0) (Q : B → Compiler F D → Type 0)
      (m : Lowered F D A) (f : A → Compiler F D → Lowered F D B)
      → Ensures P m
      → ((a : A) (c : Compiler F D) → P a c → Ensures Q (f a c))
      → Ensures Q (m >>= f)
  Ensures-bind P Q (done a c) f h k = k a c h
  Ensures-bind P Q (failed e) f h k = tt
  Ensures-bind P Q spent f h k = tt

  pub Ensures-weaken :
      {A : Type 0} (P Q : A → Compiler F D → Type 0) (m : Lowered F D A)
      → Ensures P m
      → ((a : A) (c : Compiler F D) → P a c → Q a c)
      → Ensures Q m
  Ensures-weaken P Q (done a c) h k = k a c h
  Ensures-weaken P Q (failed e) h k = tt
  Ensures-weaken P Q spent h k = tt
