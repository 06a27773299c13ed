-- ===== src/CpuHash.antt =====
-- engine/include/bench/workloads/cpu_hash.hpp and engine/src/workloads/cpu_hash.cpp: the hashing of
-- 64-byte blocks. The buffer is the list of its 64-bit words, eight to a block; `memcpy` and
-- `bit_cast` between words and bytes keep them. It comes from `alloc_buffer` (engine/src/cache.cpp),
-- whose `std::bad_alloc` ends `setup` before this state exists, and `setup` writes every word of it.
pub mod Mixer
pub mod Walk
use Prim.Native.Nat.{bit_xor}
use benchmark_platform.Prelude.{
  ℕ, zero, suc, ◌+◌, ◌-◌, ◌*◌, ◌/◌, ◌%◌, ◌^◌, max, List, [], ◌∷◌, ◌==◌, if◌then◌else◌, get_or, drop,
}
use benchmark_platform.Prelude.Words.{u64, ◌>>>◌, rotl64, golden}
use benchmark_platform.Prelude.Random.{Generator}

abbrev pub hash_block_bytes : ℕ
hash_block_bytes = 64

abbrev pub p1 : ℕ
p1 = 0x9E3779B185EBCA87

abbrev pub p2 : ℕ
p2 = 0xC2B2AE3D27D4EB4F

abbrev pub p3 : ℕ
p3 = 0x165667B19E3779F9

abbrev pub p4 : ℕ
p4 = 0x85EBCA77C2B2AE63

abbrev pub p5 : ℕ
p5 = 0x27D4EB2F165667C5

pub hash_round : ℕ → ℕ → ℕ
hash_round acc input = u64 (rotl64 (u64 (acc + u64 (input * p2))) 31 * p1)

pub hash_merge : ℕ → ℕ → ℕ
hash_merge acc lane = u64 (u64 (bit_xor acc (hash_round 0 lane) * p1) + p4)

-- The last lines of `hash_block`.
abbrev pub avalanche : ℕ → ℕ
avalanche h =
    let a = u64 (bit_xor h (h >>> 33) * p2) in
    let b = u64 (bit_xor a (a >>> 29) * p3) in bit_xor (bit_xor b (b >>> 32)) p5

-- A block is the first eight words of the list.
pub hash_block : List ℕ → ℕ → ℕ
hash_block w seed =
    let v1 = hash_round (hash_round (u64 (u64 (seed + p1) + p2)) (get_or w 0 0)) (get_or w 4 0) in
    let v2 = hash_round (hash_round (u64 (seed + p2)) (get_or w 1 0)) (get_or w 5 0) in
    let v3 = hash_round (hash_round seed (get_or w 2 0)) (get_or w 6 0) in
    let v4 = hash_round (hash_round (u64 (seed + 2 ^ 64 - p1)) (get_or w 3 0)) (get_or w 7 0) in
    let h = u64 (u64 (u64 (rotl64 v1 1 + rotl64 v2 7) + rotl64 v3 12) + rotl64 v4 18) in
    let h' = hash_merge (hash_merge (hash_merge (hash_merge h v1) v2) v3) v4 in
    avalanche (u64 (h' + hash_block_bytes))

abbrev pub default_buffer_bytes : ℕ
default_buffer_bytes = 4096

abbrev pub batch_ops : ℕ
batch_ops = 2 ^ 16

pub buffer_bytes_for : ℕ → ℕ
buffer_bytes_for bytes =
    if bytes == 0 then default_buffer_bytes else max 1 (bytes / hash_block_bytes) * hash_block_bytes

pub record CpuHashWorkload : Type 0 where
  pub words : List ℕ
  pub blocks : ℕ
  pub next_block : ℕ
  pub seed : ℕ
  pub acc : ℕ

module _ (g : Generator) where
  open g use {State, next}

  -- `n` draws, and the generator after them.
  pub draws : ℕ → State → List ℕ × State
  draws zero s = ([], s)
  draws (suc n) s = let (v, s') = next s in let (words, last) = draws n s' in (v ∷ words, last)

  pub setup : (seed thread_index working_set_bytes : ℕ) → CpuHashWorkload
  setup seed thread_index working_set_bytes =
      let bytes = buffer_bytes_for working_set_bytes in
      let (words, s) =
        draws (bytes / 8) (g.seed (bit_xor seed (u64 (golden * (thread_index + 3))))) in
      record {
        words = words;
        blocks = bytes / hash_block_bytes;
        next_block = 0;
        seed = (next s).0;
        acc = 0;
      }

-- `n` rounds of the loop, from the block `b` and the digest `acc`.
pub hash_ops : CpuHashWorkload → (n b acc : ℕ) → ℕ × ℕ
hash_ops w zero b acc = (b, acc)
hash_ops w (suc n) b acc =
    hash_ops w n (if b + 1 == w.blocks then 0 else b + 1)
      (u64 (u64 (acc * p1) + hash_block (drop (b * 8) w.words) w.seed))

pub run_batch : CpuHashWorkload → CpuHashWorkload × ℕ
run_batch w =
    let (b, acc) = hash_ops w batch_ops w.next_block w.acc in
    (record w { next_block = b; acc = acc }, batch_ops)
