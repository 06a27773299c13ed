-- ===== src/Tests/Bandwidth.antt =====
-- `MemBwWorkload`: the theorems at concrete inputs.
use benchmark_platform.Prelude.{
  ℕ, ◌+◌, ◌*◌, ◌/◌, ◌≡◌, refl, arith, List, [], ◌∷◌, ◌++◌, true, false, some, take, get_or,
}
use benchmark_platform.Prelude.Words.{u64}
use benchmark_platform.Metric.{Metric}
use benchmark_platform.MemBw.{MemBwWorkload, Mode, setup, mode_of, run_batch}
use benchmark_platform.MemBw.Setup.{IsWellFormed, setup-IsWellFormed}
use benchmark_platform.MemBw.Halves.{run_batch-copy}

abbrev nine : List ℕ
nine = 1 ∷ 2 ∷ 3 ∷ 4 ∷ 5 ∷ 6 ∷ 7 ∷ 8 ∷ 9 ∷ []

-- The members of a new object.
abbrev fresh : MemBwWorkload
fresh = record {
  buf = [];
  mode = Mode.read;
  bytes = 0;
  passes = 1;
  batch_bytes = 0;
  nt = false;
  nt_requested = false;
  fill = 0;
  acc = 0;
}

abbrev worker : Metric → MemBwWorkload
worker m = setup true fresh m 42 1 4096 (some true)

worker-IsWellFormed : (m : Metric) → IsWellFormed (worker m)
worker-IsWellFormed m = (setup-IsWellFormed true fresh m 42 1 4096 (some true) (omega arith)).0

mode_copy : (worker Metric.mem_copy_bw).mode ≡ Mode.copy
unfolding setup mode_of
mode_copy = refl

abbrev copier : MemBwWorkload
copier = worker Metric.mem_copy_bw

run_batch-copy_example :
    ((run_batch copier).0 ≡ record copier {
      buf = take (copier.bytes / 8) copier.buf ++ take (copier.bytes / 8) copier.buf;
      acc = u64 (copier.acc + get_or copier.buf 0 0);
    })
    × ((run_batch copier).1 ≡ copier.passes * copier.bytes)
run_batch-copy_example = run_batch-copy copier (worker-IsWellFormed Metric.mem_copy_bw) mode_copy
