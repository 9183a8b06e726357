-- ===== src/Base/Words.antt =====
-- Unsigned machine arithmetic, with the wrap-around written out.
use Prim.Native.Nat.{ℕ, ◌+◌, ◌-◌, ◌%◌, ◌^◌, ◌≤◌, ◌<◌}
use mathlib.Core.Path.{◌≡◌}
use native.Mathlib.Omega.{arith}

-- `uint64_t` and `size_t` subtraction.
unfoldable pub sub_u64 : ℕ → ℕ → ℕ
sub_u64 a b = (a + 2 ^ 64 - b % 2 ^ 64) % 2 ^ 64

unfoldable pub add_u64 : ℕ → ℕ → ℕ
add_u64 a b = (a + b) % 2 ^ 64

-- A subtraction that does not wrap is the difference.
pub sub_u64_of_le : (a b : ℕ) → a < 2 ^ 64 → b ≤ a → sub_u64 a b ≡ a - b
unfolding sub_u64
sub_u64_of_le a b h k = omega arith

-- One that goes below zero wraps.
pub sub_u64_of_lt : (a b : ℕ) → b < 2 ^ 64 → a < b → sub_u64 a b ≡ a + 2 ^ 64 - b
unfolding sub_u64
sub_u64_of_lt a b h k = omega arith

pub add_u64_of_lt : (a b : ℕ) → a + b < 2 ^ 64 → add_u64 a b ≡ a + b
unfolding add_u64
add_u64_of_lt a b h = omega arith
