-- ===== src/Tests/Hashing.antt =====
-- `CpuHashWorkload`: the theorems at concrete inputs.
use benchmark_platform.Prelude.{ℕ, ◌+◌, ◌%◌, ◌^◌, ◌≡◌}
use benchmark_platform.Prelude.Random.{Generator}
use benchmark_platform.CpuHash.{CpuHashWorkload, setup, run_batch, batch_ops}
use benchmark_platform.CpuHash.Walk.{IsReady, digest, setup-IsReady, run_batch-digest}

-- A small generator, which stands in for `std::mt19937_64`.
abbrev counter : Generator
counter = record { State = ℕ; seed = λ k. k; next = λ s. (s, (s + 1) % 2 ^ 64) }

abbrev worker : CpuHashWorkload
worker = setup counter 42 1 1000

run_batch-digest_example :
    ((run_batch worker).0 ≡ record worker {
      next_block = (worker.next_block + batch_ops) % worker.blocks;
      acc = digest worker batch_ops worker.next_block worker.acc;
    })
    × ((run_batch worker).1 ≡ batch_ops)
    × IsReady (run_batch worker).0
run_batch-digest_example = run_batch-digest worker (setup-IsReady counter 42 1 1000)
