-- ===== src/Common/Outcome.antt =====
-- How a kernel routine ends: with a value, in a failed `assert` (which panics), or, for a loop that
-- the model runs on fuel, without having ended yet.
use mathlib.Core.Bool.{Bool, true, false}

pub data Run {ℓ} (A : Type ℓ) : Type ℓ where
  ok : A → Run A
  panic : Run A
  no_fuel : Run A

infixl 5 ◌>>=◌ ◌>>◌
abbrev pub ◌>>=◌ {ℓ κ} : {A : Type ℓ} {B : Type κ} → Run A → (A → Run B) → Run B
ok a >>= f = f a
panic >>= f = panic
no_fuel >>= f = no_fuel

abbrev pub ◌>>◌ {ℓ} : {B : Type ℓ} → Run (Unit {0}) → Run B → Run B
m >> k = m >>= λ _. k

-- `assert`
abbrev pub assert : Bool → Run (Unit {0})
assert true = ok tt
assert false = panic
