-- ===== src/Tests/Caches.antt =====
-- Cache control: the theorems at concrete inputs.
use benchmark_platform.Prelude.{
  ◌≡◌, refl, arith, true, false, none, some, List, [], ◌∷◌, if◌then◌else◌,
}
use benchmark_platform.Prelude.Threads.{tally_zero}
use benchmark_platform.MemLatency.Cycle.{count}
use benchmark_platform.Cache.{ColdMode, flush_lines}
use benchmark_platform.Cache.Lines.{overlaps, flush_lines-count}
use benchmark_platform.Cache.Memory.{Buffer, Alloc, no_buffer, alloc_buffer}
use benchmark_platform.Cache.Window.{Window, alloc_buffer-Window}
use benchmark_platform.Cache.Ownership.{Op, Store, run, Conserves, run-Conserves}
use benchmark_platform.Cache.Cold as Cold
use benchmark_platform.Cache.Cold.{Serves, Truthful, prepare-Truthful}

flush_lines-count_example :
    count 128 (flush_lines 130 100) ≡ (if overlaps 130 100 128 then 1 else 0)
flush_lines-count_example = flush_lines-count 130 100 128 (omega arith) (omega arith)

alloc_buffer-Window_example :
    (a : Alloc) × (alloc_buffer 3_000_000 true (some 5_000_000) none 0 ≡ some a)
    × Window 3_000_000 5_000_000 6_300_000 a
alloc_buffer-Window_example =
    alloc_buffer-Window 3_000_000 5_000_000 0 6_300_000 none (omega arith) (omega arith)

abbrev block : Buffer
block = record {
  address = some 4096;
  size = 64;
  mapped = 0;
  huge_requested = false;
  huge_granted = 0;
}

abbrev start : Store
start = record { buffers = λ i. no_buffer; acquired = []; released = [] }

-- The buffer 0 gets a block and moves it to the buffer 1; both are destroyed.
abbrev program : List Op
program = Op.allocate 0 block ∷ Op.assign 1 0 ∷ Op.destroy 0 ∷ Op.destroy 1 ∷ []

run-Conserves_example : Conserves 2 (4096, 0) (run program start)
run-Conserves_example =
    run-Conserves 2 (4096, 0) program start
      (omega arith, ((omega arith, omega arith), (omega arith, (omega arith, tt))))
      (omega (arith, tally_zero 2 (λ i. 0) (λ j p. refl)))

prepare-Truthful_example :
    Serves ColdMode.mode_evict (Cold.setup ColdMode.mode_evict 1024 100).effect
    × Truthful
        (Cold.setup ColdMode.mode_evict 1024 100).effect
        1024
        130
        100
        128
        (Cold.prepare (Cold.setup ColdMode.mode_evict 1024 100) 130 100)
prepare-Truthful_example = prepare-Truthful ColdMode.mode_evict 1024 130 100 128 (omega arith)
