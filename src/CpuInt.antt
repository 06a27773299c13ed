-- ===== src/CpuInt.antt =====
-- engine/src/workloads/cpu_int.cpp: `CpuIntWorkload`, eight lanes of 64 bits.
pub mod Lanes
use Prim.Native.Nat.{bit_or, bit_xor}
use benchmark_platform.Prelude.{ℕ, zero, suc, ◌+◌, ◌*◌, ◌^◌, List, [], ◌∷◌, map}
use benchmark_platform.Prelude.Words.{u64, ◌>>>◌, golden}
use benchmark_platform.Prelude.Random.{Generator}

abbrev pub lanes : ℕ
lanes = 8

abbrev pub iters_per_batch : ℕ
iters_per_batch = 2 ^ 17

pub record CpuIntWorkload : Type 0 where
  pub lanes_ : List ℕ
  pub k_ : ℕ
  pub sink_ : ℕ

module _ (g : Generator) where
  open g use {State, seed, next}

  -- `for (auto& l : lanes_) l = rng()`
  draws : ℕ → State → List ℕ × State
  draws zero s = ([], s)
  draws (suc n) s =
      let (word, s1) = next s in let (words, last) = draws n s1 in (word ∷ words, last)

  unfoldable pub setup : CpuIntWorkload → (context_seed thread_index : ℕ) → CpuIntWorkload
  unfolding draws
  setup w context_seed thread_index =
      let (words, s) =
        draws lanes (seed (bit_xor context_seed (u64 (golden * (thread_index + 1))))) in
      record w { lanes_ = words; k_ = bit_or (next s).0 1 }

-- `a = (a * k) + ((a >> 17) ^ i)`
pub int_op : (k i a : ℕ) → ℕ
int_op k i a = u64 (u64 (a * k) + bit_xor (a >>> 17) i)

-- The loop over `i`, with `left` rounds to come; a round goes over the lanes.
unfoldable pub run_iters : (k left i : ℕ) → List ℕ → List ℕ
run_iters k zero i acc = acc
run_iters k (suc left) i acc = run_iters k left (suc i) (map (int_op k i) acc)

unfoldable pub fold_lanes : List ℕ → ℕ → ℕ
fold_lanes [] fold = fold
fold_lanes (a ∷ acc) fold = fold_lanes acc (bit_xor fold a)

unfoldable pub run_batch : CpuIntWorkload → CpuIntWorkload × ℕ
run_batch w =
    let acc = run_iters w.k_ iters_per_batch 0 w.lanes_ in
    (record w { lanes_ = acc; sink_ = bit_xor w.sink_ (fold_lanes acc 0) }, iters_per_batch * lanes)
