-- ===== src/Common/Outcome.antt =====
-- Outcomes of kernel code: a value, or the machine stopped by `assert` (`core/inc/assert.h`).
use mathlib.Core.Bool.{Bool, true, false}

-- `halted`: a failed assertion has run `CLI` and `HLT`, and nothing after it is executed.
pub data Run {ℓ} (A : Type ℓ) : Type ℓ where
  ok : A → Run A
  halted : Run A

infixl 5 ◌>>=◌ ◌>>◌
abbrev pub ◌>>=◌ {ℓ κ} : {A : Type ℓ} {B : Type κ} → Run A → (A → Run B) → Run B
ok a >>= f = f a
halted >>= f = halted

abbrev pub ◌>>◌ {ℓ} : {B : Type ℓ} → Run (Unit {0}) → Run B → Run B
m >> k = m >>= λ _. k

abbrev pub assert : Bool → Run (Unit {0})
assert true = ok tt
assert false = halted
