-- ===== src/MemLatency.antt =====
-- engine/include/bench/workloads/mem_latency.hpp and engine/src/workloads/mem_latency.cpp: the
-- pointer chase over one random cycle of cache lines.
-- The buffer is the list of its 64-bit words. It comes zeroed from `alloc_buffer` (engine/src/
-- cache.cpp), whose `std::bad_alloc` ends `setup` before this state exists; `bytes` never exceeds
-- the range of `size_t`, which is `uint64_t` on the one platform of the engine, so the test before
-- the allocation never throws and is left out. `describe` builds a JSON report.
pub mod Cycle
pub mod Shuffle
pub mod Chase
use Prim.Native.Nat.{bit_xor}
use benchmark_platform.Prelude.{
  ℕ, zero, suc, ◌+◌, ◌-◌, ◌*◌, ◌/◌, ◌%◌, ◌^◌, max, List, [], ◌∷◌, ◌++◌, ◌==◌, if◌then◌else◌, length,
  get_or, set, replicate,
}
use benchmark_platform.Prelude.Words.{u64, golden}
use benchmark_platform.Prelude.Random.{Generator}

abbrev pub cache_line : ℕ
cache_line = 64

-- `kCacheLine / sizeof(std::uint64_t)`
abbrev pub words_per_line : ℕ
words_per_line = 8

abbrev pub default_working_set : ℕ
default_working_set = 64 * 2 ^ 20

abbrev pub min_lines : ℕ
min_lines = 2

abbrev pub batch_loads : ℕ
batch_loads = 2 ^ 16

-- `std::swap(a[i], a[j])`
pub swap : List ℕ → ℕ → ℕ → List ℕ
swap a i j = set (set a i (get_or a j 0)) j (get_or a i 0)

module _ (g : Generator) where
  open g use {State, seed, next}

  -- The rounds for the indices `i`, `i - 1`, …, 1.
  pub sattolo_rounds : ℕ → State → List ℕ → List ℕ
  sattolo_rounds zero s a = a
  sattolo_rounds (suc i) s a =
      let (r, s') = next s in sattolo_rounds i s' (swap a (suc i) (r % suc i))

  pub sattolo_shuffle : List ℕ → ℕ → List ℕ
  sattolo_shuffle a k = sattolo_rounds (length a - 1) (seed k) a

unfoldable pub buffer_bytes_for : ℕ → ℕ
buffer_bytes_for working_set =
    let want = if working_set == 0 then default_working_set else working_set in
    max min_lines (want / cache_line) * cache_line

pub record MemLatencyWorkload : Type 0 where
  pub words : List ℕ
  pub lines : ℕ
  pub idx : ℕ

-- `order[i] = i` for `i < n`
pub identity_order : ℕ → List ℕ
identity_order zero = []
identity_order (suc n) = identity_order n ++ n ∷ []

-- `for (i = 0; i < n; ++i) words[i * kWordsPerLine] = order[i] * kWordsPerLine`
pub link_lines : ℕ → List ℕ → List ℕ → List ℕ
link_lines zero order words = words
link_lines (suc n) order words =
    set (link_lines n order words) (n * words_per_line) (u64 (get_or order n 0 * words_per_line))

unfoldable pub setup : Generator → (seed thread_index working_set_bytes : ℕ) → MemLatencyWorkload
setup g seed thread_index working_set_bytes =
    let bytes = buffer_bytes_for working_set_bytes in
    let lines = bytes / cache_line in
    let order =
      sattolo_shuffle g (identity_order lines) (bit_xor seed (u64 (golden * (thread_index + 1)))) in
    record { words = link_lines lines order (replicate (bytes / 8) 0); lines = lines; idx = 0 }

-- `n` rounds of `idx = words[idx]`
pub chase : ℕ → List ℕ → ℕ → ℕ
chase zero words idx = idx
chase (suc n) words idx = chase n words (get_or words idx 0)

pub run_batch : MemLatencyWorkload → MemLatencyWorkload × ℕ
run_batch w = (record w { idx = chase batch_loads w.words w.idx }, batch_loads)

pub next_line : MemLatencyWorkload → ℕ → ℕ
next_line w line = get_or w.words (line * words_per_line) 0 / words_per_line
