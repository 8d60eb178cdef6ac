-- ===== src/Common/Words.antt =====
-- 64-bit arithmetic with its wrap-around, and a memory of 64-bit words.
use Prim.Native.Nat.{ℕ, ◌+◌, ◌-◌, ◌%◌, ◌^◌}
use mathlib.Core.Path.{◌≡◌}
use mathlib.Core.Logic.{◌≢◌}
use native.Mathlib.Omega.{arith}
use skip_os.Common.Logic.{◌==◌, if◌then◌else◌}

-- `u64` and `size_t` addition and subtraction.
abbrev pub add64 : ℕ → ℕ → ℕ
add64 a b = (a + b) % 2 ^ 64

abbrev pub sub64 : ℕ → ℕ → ℕ
sub64 a b = (a + 2 ^ 64 - b) % 2 ^ 64

-- The value of the aligned 64-bit word at each address.
abbrev pub Memory : Type 0
Memory = ℕ → ℕ

unfoldable pub store : Memory → ℕ → ℕ → Memory
store m a v b = if b == a then v else m b

pub store_at : (m : Memory) (a v : ℕ) → store m a v a ≡ v
unfolding store
store_at m a v = ground arith

pub store_ne : (m : Memory) (a v b : ℕ) → b ≢ a → store m a v b ≡ m b
unfolding store
store_ne m a v b h = ground arith
