-- ===== src/Prelude/Options.antt =====
-- `do` over values that may be missing: the first missing one ends the block.
use mathlib.Core.Option.{Option, none, some}
use mathlib.Core.Path.{◌≡◌, refl}
use native.Mathlib.Omega.{arith}

infixl 5 ◌>>=◌
abbrev pub ◌>>=◌ : {A B : Type 0} → Option A → (A → Option B) → Option B
none >>= f = none
some a >>= f = f a

-- A block that gives a value got one from its first step.
pub bind-some :
    {A B : Type 0} (P : Type 0) (o : Option A) (f : A → Option B) (b : B)
    → (o >>= f) ≡ some b
    → ((a : A) → o ≡ some a → f a ≡ some b → P)
    → P
bind-some P none f b e k = absurd (ground (arith, e))
bind-some P (some a) f b e k = k a refl e
