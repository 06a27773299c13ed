-- ===== src/Prelude/Words.antt =====
-- Unsigned words: casts, shifts and rotations at the widths that the engine uses. A value of such a
-- type is a number below 2 ^ w.
use Prim.Native.Nat.{ℕ, ◌+◌, ◌-◌, ◌*◌, ◌/◌, ◌%◌, ◌^◌}

abbrev pub u8 : ℕ → ℕ
u8 n = n % 2 ^ 8

abbrev pub u32 : ℕ → ℕ
u32 n = n % 2 ^ 32

abbrev pub u64 : ℕ → ℕ
u64 n = n % 2 ^ 64

infixl 75 ◌>>>◌
abbrev pub ◌>>>◌ : ℕ → ℕ → ℕ
x >>> k = x / 2 ^ k

-- `uint64_t << k`
abbrev pub shl64 : ℕ → ℕ → ℕ
shl64 x k = u64 (x * 2 ^ k)

-- `std::rotr(uint32_t, k)` and `std::rotl(uint64_t, k)`, for `k` below the width
abbrev pub rotr32 : ℕ → ℕ → ℕ
rotr32 x k = x / 2 ^ k + x % 2 ^ k * 2 ^ (32 - k)

abbrev pub rotl64 : ℕ → ℕ → ℕ
rotl64 x k = x / 2 ^ (64 - k) + x % 2 ^ (64 - k) * 2 ^ k

-- The odd constant by which a worker's index is mixed into the seed.
abbrev pub golden : ℕ
golden = 0x9E3779B97F4A7C15
