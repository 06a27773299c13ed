-- ===== src/Plan.antt =====
-- engine/src/runner.cpp: what a configuration runs on: `default_cpu_list` and the working sets.
pub mod Sizes
pub mod Specs
pub mod Checks
pub mod Layout
use benchmark_platform.Prelude.{
  ℕ, zero, suc, ◌+◌, ◌*◌, ◌/◌, ◌^◌, max, List, [], ◌∷◌, ◌++◌, ltb, ◌==◌, if◌then◌else◌,
}
use benchmark_platform.Metric.{Workload}
use benchmark_platform.MemBw as MemBw
use benchmark_platform.MemLatency as MemLatency

-- The loop `for (int c = …; c < logical_cpus; c += 2)`, in at most `fuel` rounds.
pub every_second : ℕ → ℕ → ℕ → List ℕ
every_second zero c logical_cpus = []
every_second (suc fuel) c logical_cpus =
    let more = every_second fuel (c + 2) logical_cpus in if ltb c logical_cpus then c ∷ more else []

-- For a negative number the source gives what it gives for 0.
pub default_cpu_list : ℕ → List ℕ
default_cpu_list logical_cpus =
    every_second logical_cpus 0 logical_cpus ++ every_second logical_cpus 1 logical_cpus

abbrev pub disk_default_size : ℕ
disk_default_size = 4 * 2 ^ 30

abbrev pub disk_seq_block : ℕ
disk_seq_block = 2 ^ 20

pub default_working_set : Workload → ℕ
default_working_set Workload.mem_bw = MemBw.default_working_set
default_working_set Workload.mem_latency = MemLatency.default_working_set
default_working_set Workload.disk_seq = disk_default_size
default_working_set Workload.disk_rand = disk_default_size
default_working_set _ = 0

abbrev pub disk_working_set : ℕ → ℕ
disk_working_set requested =
    let want = if requested == 0 then disk_default_size else requested in
    max 1 (want / disk_seq_block) * disk_seq_block

pub effective_working_set : Workload → ℕ → ℕ
effective_working_set Workload.mem_bw requested = MemBw.buffer_bytes_for requested
effective_working_set Workload.mem_latency requested = MemLatency.buffer_bytes_for requested
effective_working_set Workload.disk_seq requested = disk_working_set requested
effective_working_set Workload.disk_rand requested = disk_working_set requested
effective_working_set _ requested = requested
