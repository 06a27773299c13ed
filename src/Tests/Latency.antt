-- ===== src/Tests/Latency.antt =====
-- `MemLatencyWorkload`: the theorems at concrete inputs.
use benchmark_platform.Prelude.{ℕ, ◌+◌, ◌*◌, ◌/◌, ◌%◌, ◌^◌, ◌≤◌, ◌<◌, ◌≡◌, arith, length}
use benchmark_platform.Prelude.Random.{Generator}
use benchmark_platform.MemLatency.{
  buffer_bytes_for, words_per_line, setup, chase, next_line, MemLatencyWorkload,
}
use benchmark_platform.MemLatency.Cycle.{count, trace, iterate}
use benchmark_platform.MemLatency.Chase.{setup-chase}

-- A small generator, which stands in for `std::mt19937_64`.
abbrev lcg : Generator
lcg = record { State = ℕ; seed = λ k. k; next = λ s. (s / 2 ^ 16, (s * 25173 + 13849) % 2 ^ 32) }

abbrev worker : MemLatencyWorkload
worker = setup lcg 42 1 1000

worker_lines : 7 < worker.lines
unfolding setup buffer_bytes_for
worker_lines = omega arith

setup-chase_example :
    (2 ≤ worker.lines)
    × (length worker.words ≡ worker.lines * words_per_line)
    × (count 7 (trace (next_line worker) worker.lines 0) ≡ 1)
    × (chase 100 worker.words worker.idx ≡ iterate (next_line worker) 100 0 * words_per_line)
    × (chase 100 worker.words worker.idx < length worker.words)
    × (chase worker.lines worker.words worker.idx ≡ worker.idx)
setup-chase_example = setup-chase lcg 42 1 1000 (omega arith) 7 100 worker_lines
