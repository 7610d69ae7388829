-- ===== src/Base/Words.antt =====
-- Machine words: a value is a number, and an operation that can wrap takes its remainder.
use Prim.Native.Nat.{ℕ, ◌+◌, ◌%◌, ◌≤◌, ◌<◌}
use mathlib.Core.Path.{◌≡◌}
use native.Mathlib.Omega.{arith}

abbrev pub u32_max : ℕ
u32_max = 4294967295

abbrev pub u64_max : ℕ
u64_max = 18446744073709551615

abbrev pub u64_mod : ℕ
u64_mod = 18446744073709551616

-- Release builds of the workspace wrap on overflow: `u64` arithmetic is modulo 2^64.
unfoldable pub w64 : ℕ → ℕ
w64 n = n % u64_mod

pub w64-lt : (n : ℕ) → w64 n < u64_mod
unfolding w64
w64-lt n = omega arith

pub w64-le : (n : ℕ) → w64 n ≤ n
unfolding w64
w64-le n = omega arith

pub w64_small : (n : ℕ) → n < u64_mod → w64 n ≡ n
unfolding w64
w64_small n h = omega arith

-- `u32` arithmetic is modulo 2^32.
unfoldable pub w32 : ℕ → ℕ
w32 n = n % (u32_max + 1)

w32_small : (n : ℕ) → n ≤ u32_max → w32 n ≡ n
unfolding w32
w32_small n h = omega arith
