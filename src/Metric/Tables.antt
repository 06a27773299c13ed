-- ===== src/Metric/Tables.antt =====
-- engine/src/runner.cpp, the workload registry and what is looked up in it, and how the tables of
-- engine/src/metric.cpp fit it.
use benchmark_platform.Prelude.{
  ℕ, ◌==◌, String, List, [], ◌∷◌, ◌++◌, ◌≡◌, refl, arith, Bool, true, false, if◌then◌else◌, ◌+◌,
  Option, none, some,
}
use benchmark_platform.Metric.{
  Workload, Metric, MetricUnit, WorkUnit, ValueRule, workload_of, unit_of, work_unit_of,
  value_rule_of, lower_is_better,
}

-- `Workload ==`, on the underlying values of the enum
abbrev pub workload_index : Workload → ℕ
workload_index Workload.cpu_int = 0
workload_index Workload.cpu_fp = 1
workload_index Workload.cpu_hash = 2
workload_index Workload.mem_bw = 3
workload_index Workload.mem_latency = 4
workload_index Workload.disk_seq = 5
workload_index Workload.disk_rand = 6

abbrev pub workload_eq : Workload → Workload → Bool
workload_eq a b = workload_index a == workload_index b

-- The description is a text for `bench list` only.
pub record WorkloadDesc : Type 0 where
  pub kind : Workload
  pub metrics : List Metric
  pub description : String
  pub implemented : Bool

abbrev pub workload_registry : List WorkloadDesc
workload_registry =
    record {
      kind = Workload.cpu_int;
      metrics = Metric.cpu_int_ops ∷ [];
      description = "64-bit integer mul/shift/xor/add on 8 lanes";
      implemented = true;
    }
    ∷ record {
      kind = Workload.cpu_fp;
      metrics = Metric.cpu_fp_ops ∷ [];
      description = "double-precision FMA on 8 lanes";
      implemented = true;
    }
    ∷ record {
      kind = Workload.cpu_hash;
      metrics = Metric.cpu_hash_ops ∷ [];
      description = "xxHash-style 64-byte block hashing";
      implemented = true;
    }
    ∷ record {
      kind = Workload.mem_bw;
      metrics = Metric.mem_read_bw ∷ Metric.mem_write_bw ∷ Metric.mem_copy_bw ∷ [];
      description = "streaming read / write / copy over a per-thread buffer";
      implemented = true;
    }
    ∷ record {
      kind = Workload.mem_latency;
      metrics = Metric.mem_latency ∷ [];
      description = "dependent-load pointer chase (Sattolo cycle)";
      implemented = true;
    }
    ∷ record {
      kind = Workload.disk_seq;
      metrics = Metric.disk_seq_read_bw ∷ Metric.disk_seq_write_bw ∷ [];
      description = "1 MiB O_DIRECT sequential read / write";
      implemented = true;
    }
    ∷ record {
      kind = Workload.disk_rand;
      metrics =
          Metric.disk_rand_read_iops ∷ Metric.disk_rand_write_iops ∷ Metric.disk_rand_read_p99_us
          ∷ [];
      description = "4 KiB O_DIRECT random read / write, QD = threads";
      implemented = true;
    }
    ∷ []

find_implemented : List WorkloadDesc → Workload → Bool
find_implemented [] w = false
find_implemented (d ∷ ds) w =
    let rest = find_implemented ds w in if workload_eq d.kind w then d.implemented else rest

unfoldable pub is_implemented : Workload → Bool
unfolding find_implemented
is_implemented w = find_implemented workload_registry w

unfoldable pub is_rider : Metric → Bool
is_rider Metric.disk_rand_read_p99_us = true
is_rider _ = false

unfoldable pub riders_of : Metric → List Metric
riders_of Metric.disk_rand_read_iops = Metric.disk_rand_read_p99_us ∷ []
riders_of _ = []

without_riders : List Metric → List Metric
without_riders [] = []
without_riders (m ∷ ms) = let rest = without_riders ms in if is_rider m then rest else m ∷ rest

collect_metrics : List WorkloadDesc → Workload → List Metric
collect_metrics [] w = []
collect_metrics (d ∷ ds) w =
    let rest = collect_metrics ds w in
    if workload_eq d.kind w then without_riders d.metrics ++ rest else rest

unfoldable pub metrics_of : Workload → List Metric
unfolding collect_metrics without_riders is_rider
metrics_of w = collect_metrics workload_registry w

-- The metrics that a session of `m` reports: `m` itself, then its riders.
abbrev pub group_of : Metric → List Metric
group_of m = m ∷ riders_of m

abbrev pub groups : List Metric → List Metric
groups [] = []
groups (m ∷ ms) = group_of m ++ groups ms

-- `Metric ==`, on the underlying values of the enum
abbrev pub metric_index : Metric → ℕ
metric_index Metric.cpu_int_ops = 0
metric_index Metric.cpu_fp_ops = 1
metric_index Metric.cpu_hash_ops = 2
metric_index Metric.mem_read_bw = 3
metric_index Metric.mem_write_bw = 4
metric_index Metric.mem_copy_bw = 5
metric_index Metric.mem_latency = 6
metric_index Metric.disk_seq_read_bw = 7
metric_index Metric.disk_seq_write_bw = 8
metric_index Metric.disk_rand_read_iops = 9
metric_index Metric.disk_rand_write_iops = 10
metric_index Metric.disk_rand_read_p99_us = 11

abbrev pub metric_eq : Metric → Metric → Bool
metric_eq a b = metric_index a == metric_index b

abbrev pub count : Metric → List Metric → ℕ
count m [] = 0
count m (x ∷ xs) = (if metric_eq x m then 1 else 0) + count m xs

-- The sessions that a workload expands to report each metric of that workload exactly once,
-- riders included, and no metric of another workload.
pub metrics_of_complete :
    (w : Workload) (m : Metric)
    → count m (groups (metrics_of w)) ≡ (if workload_eq (workload_of m) w then 1 else 0)
unfolding metrics_of riders_of workload_of
metrics_of_complete Workload.cpu_int m = ground arith
metrics_of_complete _ m = ground arith

-- The unit that follows from how a value is formed and what a work unit is; `none` where the two
-- make no metric.
abbrev pub unit_from : ValueRule → WorkUnit → Option MetricUnit
unit_from ValueRule.units_per_s WorkUnit.ops = some MetricUnit.ops_per_s
unit_from ValueRule.units_per_s WorkUnit.ios = some MetricUnit.iops
unit_from ValueRule.giga_units_per_s WorkUnit.bytes = some MetricUnit.gb_per_s
unit_from ValueRule.mega_units_per_s WorkUnit.bytes = some MetricUnit.mb_per_s
unit_from ValueRule.ns_per_unit WorkUnit.loads = some MetricUnit.ns
unit_from ValueRule.latency_p99_us WorkUnit.ios = some MetricUnit.us
unit_from _ _ = none

abbrev pub is_time : MetricUnit → Bool
is_time MetricUnit.ns = true
is_time MetricUnit.us = true
is_time _ = false

-- The four tables agree: a metric's unit is the one that its value rule and its work unit make,
-- and lower values are better exactly for the metrics whose unit is a time.
pub tables_agree :
    (m : Metric)
    → (unit_from (value_rule_of m) (work_unit_of m) ≡ some (unit_of m))
      × (lower_is_better m ≡ is_time (unit_of m))
unfolding unit_of value_rule_of work_unit_of lower_is_better
tables_agree Metric.cpu_int_ops = (refl, refl)
tables_agree _ = (refl, refl)

-- A rider is no metric of its own, and shares its workload and its work unit with its host.
pub riders_of-host :
    (m r : Metric) (rest : List Metric)
    → riders_of m ≡ r ∷ rest
    → (is_rider r ≡ true)
      × (is_rider m ≡ false)
      × (workload_of r ≡ workload_of m)
      × (work_unit_of r ≡ work_unit_of m)
unfolding riders_of is_rider workload_of work_unit_of
riders_of-host m r rest h = ground arith
