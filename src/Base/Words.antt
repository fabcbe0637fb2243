-- ===== src/Base/Words.antt =====
-- Machine words and the clock.
-- A uint64_t is its value; what wraps is written out. A std::chrono::steady_clock::time_point
-- is the number of nanosecond ticks since Clock::time_point::min(): the order, the unsigned
-- difference of two ticks and the test against Clock::time_point::max() are those of the
-- signed 64-bit count.
use Prim.Native.Nat.{ℕ, ◌+◌, ◌-◌, ◌%◌, ◌^◌, ◌≤◌, ◌<◌}
use mathlib.Core.Path.{◌≡◌}
use native.Mathlib.Omega.{arith}

abbrev pub u64_mod : ℕ
u64_mod = 2 ^ 64

abbrev pub u64_max : ℕ
u64_max = 2 ^ 64 - 1

abbrev pub u32 : ℕ → ℕ
u32 n = n % 2 ^ 32

abbrev pub u64 : ℕ → ℕ
u64 n = n % 2 ^ 64

abbrev pub sub_u64 : ℕ → ℕ → ℕ
sub_u64 a b = (a + 2 ^ 64 - b) % 2 ^ 64

-- Clock::time_point::max().
abbrev pub time_max : ℕ
time_max = 2 ^ 64 - 1

pub sub_u64_exact : (a b : ℕ) → b ≤ a → a < 2 ^ 64 → sub_u64 a b ≡ a - b
sub_u64_exact a b h k = omega arith
