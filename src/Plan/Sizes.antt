-- ===== src/Plan/Sizes.antt =====
-- The default order of the CPUs, and the working sets that results record.
use benchmark_platform.Prelude.{
  ℕ, zero, suc, ◌+◌, ◌*◌, ◌%◌, ◌≤◌, List, [], ◌∷◌, ◌++◌, ltb, ◌==◌, if◌then◌else◌, ◌≡◌, refl, arith,
  Bool-cases, inl, inr, leb, ◌&&◌,
}
use benchmark_platform.Metric.{Workload}
use benchmark_platform.MemBw as MemBw
use benchmark_platform.MemLatency as MemLatency
use benchmark_platform.MemLatency.Cycle.{count}
use benchmark_platform.Plan.{
  every_second, default_cpu_list, default_working_set, effective_working_set,
}

count-append : (v : ℕ) (xs ys : List ℕ) → count v (xs ++ ys) ≡ count v xs + count v ys
count-append v [] ys = omega arith
count-append v (x ∷ xs) ys = omega (arith, count-append v xs ys)

count-every_second :
    (fuel c n v : ℕ)
    → n ≤ c + 2 * fuel
    → count v (every_second fuel c n) ≡ (if leb c v && (ltb v n && (v % 2 == c % 2)) then 1 else 0)
unfolding every_second
count-every_second zero c n v h = ground arith
count-every_second (suc fuel) c n v h = elim (Bool-cases (ltb c n)) [
  | inl more ↦ rw (more, every_second) (ground (arith, count-every_second fuel (c + 2) n v))
  | inr done ↦ rw (done, every_second) (ground arith)
]

-- The default order names every CPU below the number of CPUs exactly once, and no other.
pub default_cpu_list-count : (n v : ℕ) → count v (default_cpu_list n) ≡ (if ltb v n then 1 else 0)
unfolding default_cpu_list
default_cpu_list-count n v = ground (
  arith,
  count-append v (every_second n 0 n) (every_second n 1 n),
  count-every_second n 0 n v,
  count-every_second n 1 n v,
)

-- A request of 0 takes the default of the workload, and the size that a result records is kept
-- when it is requested again.
pub effective_working_set_lem :
    (w : Workload) (r : ℕ)
    → (effective_working_set w 0 ≡ default_working_set w)
      × (effective_working_set w (effective_working_set w r) ≡ effective_working_set w r)
unfolding effective_working_set default_working_set MemBw.buffer_bytes_for
    MemLatency.buffer_bytes_for
effective_working_set_lem Workload.mem_bw r = (refl, ground arith)
effective_working_set_lem Workload.mem_latency r = (refl, ground arith)
effective_working_set_lem Workload.disk_seq r = (refl, ground arith)
effective_working_set_lem Workload.disk_rand r = (refl, ground arith)
effective_working_set_lem _ r = (refl, refl)
