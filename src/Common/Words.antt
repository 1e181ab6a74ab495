-- ===== src/Common/Words.antt =====
-- Unsigned machine words: `uint32_t` and `uint64_t`, whose arithmetic wraps.
use Prim.Native.Nat.{ℕ, ◌+◌, ◌-◌, ◌%◌, ◌^◌, ◌≤◌, ◌<◌}
use mathlib.Core.Path.{◌≡◌}
use native.Mathlib.Omega.{arith}

abbrev pub u32_mod : ℕ
u32_mod = 2 ^ 32

abbrev pub u64_mod : ℕ
u64_mod = 2 ^ 64

-- `std::numeric_limits<uint64_t>::max()`
abbrev pub u64_max : ℕ
u64_max = 2 ^ 64 - 1

abbrev pub add64 : ℕ → ℕ → ℕ
add64 a b = (a + b) % u64_mod

abbrev pub sub64 : ℕ → ℕ → ℕ
sub64 a b = (a + u64_mod - b) % u64_mod

pub sub64-eq_of_le : (a b : ℕ) → b ≤ a → a < u64_mod → sub64 a b ≡ a - b
sub64-eq_of_le a b h w = omega arith

pub add64-eq_of_lt : (a b : ℕ) → a + b < u64_mod → add64 a b ≡ a + b
add64-eq_of_lt a b w = omega arith

pub sub64-add64 : (a b : ℕ) → a < u64_mod → b < u64_mod → sub64 (add64 a b) b ≡ a
sub64-add64 a b h w = omega arith
