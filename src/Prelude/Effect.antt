-- ===== src/Prelude/Effect.antt =====
-- C functions that return `bool` and change an object behind a pointer: the object is a state, and
-- `none` is the answer `false`. The state that a failing call leaves behind is kept.
use mathlib.Core.Option.{Option, none, some}

abbrev pub M {ℓ κ} : Type ℓ → Type κ → Type (ℓ ⊔ κ)
M S A = S → Option A × S

module _ {ℓ κ} {S : Type ℓ} {A : Type κ} where
  abbrev pub pure : A → M S A
  pure a s = (some a, s)

  -- The rest of a function behind `if (!call) return false;`.
  abbrev pub and_then {ι} : {B : Type ι} → Option A × S → (A → M S B) → Option B × S
  and_then (none, s) f = (none, s)
  and_then (some a, s) f = f a s

infixl 5 ◌>>=◌ ◌>>◌
abbrev pub ◌>>=◌ {ℓ κ ι} : {S : Type ℓ} {A : Type κ} {B : Type ι} → M S A → (A → M S B) → M S B
◌>>=◌ m f s = and_then (m s) f

abbrev pub ◌>>◌ {ℓ ι} : {S : Type ℓ} {B : Type ι} → M S (Unit {0}) → M S B → M S B
◌>>◌ m k s = and_then (m s) (λ _. k)
