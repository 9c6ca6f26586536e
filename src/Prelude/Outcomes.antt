-- ===== src/Prelude/Outcomes.antt =====
-- Runs of code that may recur without end or do what the language leaves undefined.
use mathlib.Core.Path.{◌≡◌, ap}

pub data Run {ℓ} (A : Type ℓ) : Type ℓ where
  returns : A → Run A
  -- the fuel is used up
  no_fuel : Run A
  undefined : Run A

infixl 5 ◌>>=◌
abbrev pub ◌>>=◌ {ℓ κ} : {A : Type ℓ} {B : Type κ} → Run A → (A → Run B) → Run B
returns a >>= f = f a
no_fuel >>= f = no_fuel
undefined >>= f = undefined

pub returns-injective {ℓ} : {A : Type ℓ} (a b : A) → returns a ≡ returns b → a ≡ b
returns-injective a b h = ap (λ r. elim r [ returns x ↦ x | no_fuel ↦ a | undefined ↦ a ]) h
