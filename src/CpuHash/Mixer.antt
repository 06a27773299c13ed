-- ===== src/CpuHash/Mixer.antt =====
-- The rounds of the mixer, and their inverse.
use benchmark_platform.Prelude.{ℕ, ◌+◌, ◌-◌, ◌*◌, ◌^◌, ◌<◌, ◌≡◌, arith}
use benchmark_platform.Prelude.Words.{u64, rotl64}
use benchmark_platform.CpuHash.{hash_round, p1, p2}

-- The inverse of `p1` modulo 2^64.
abbrev pub p1_inverse : ℕ
p1_inverse = 0x887493432BADB37

-- A round undone.
pub undo_round : ℕ → ℕ → ℕ
undo_round r input = u64 (rotl64 (u64 (r * p1_inverse)) 33 + 2 ^ 64 - u64 (input * p2))

times-p1 : (y : ℕ) → y < 2 ^ 64 → u64 (u64 (y * p1) * p1_inverse) ≡ y
times-p1 y h = omega arith

rotl64-rotl64 : (x : ℕ) → x < 2 ^ 64 → (rotl64 x 31 < 2 ^ 64) × (rotl64 (rotl64 x 31) 33 ≡ x)
rotl64-rotl64 x h = (omega arith, omega arith)

-- A round of the mixer can be undone: from its result and its input the accumulator can be
-- computed, for an accumulator below 2^64.
pub undo_round-hash_round :
    (acc input : ℕ) → acc < 2 ^ 64 → undo_round (hash_round acc input) input ≡ acc
unfolding undo_round hash_round
undo_round-hash_round acc input h =
    let x = u64 (acc + u64 (input * p2)) in
    let (small, back) = rotl64-rotl64 x (omega arith) in
    rw (times-p1 (rotl64 x 31) small, back) (omega arith)
