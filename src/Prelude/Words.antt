-- ===== src/Prelude/Words.antt =====
-- Machine words: a `u64` or `u128` is a natural number, and an operation that wraps is followed
-- by the remainder.
use Prim.Native.Nat.{ℕ, ◌+◌, ◌-◌, ◌*◌, ◌/◌, ◌%◌, ◌^◌}

abbrev pub u32 : ℕ → ℕ
u32 n = n % 2 ^ 32

abbrev pub u64 : ℕ → ℕ
u64 n = n % 2 ^ 64

abbrev pub u128 : ℕ → ℕ
u128 n = n % 2 ^ 128

abbrev pub shr : ℕ → ℕ → ℕ
shr x k = x / 2 ^ k

abbrev pub wrapping_add64 : ℕ → ℕ → ℕ
wrapping_add64 a b = u64 (a + b)

abbrev pub wrapping_sub64 : ℕ → ℕ → ℕ
wrapping_sub64 a b = u64 (a + 2 ^ 64 - b)

abbrev pub wrapping_mul64 : ℕ → ℕ → ℕ
wrapping_mul64 a b = u64 (a * b)
