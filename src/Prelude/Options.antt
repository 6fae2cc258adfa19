-- ===== src/Prelude/Options.antt =====
-- Chains of calls that may panic.
use mathlib.Core.Option.{Option, none, some}

infixl 15 ◌>>=◌
abbrev pub ◌>>=◌ {ℓ ℓ'} : {A : Type ℓ} {B : Type ℓ'} → Option A → (A → Option B) → Option B
none >>= next = none
some a >>= next = next a
