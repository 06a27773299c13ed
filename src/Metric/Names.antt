-- ===== src/Metric/Names.antt =====
-- `to_string`, `parse_enum` and the three parsers of engine/src/metric.cpp. The overloads of
-- `to_string` are instances of one record.
use text.Mathlib.Text.{◌==◌ as str_eq}
use text.Mathlib.TextEquality.{eq_iff}
use benchmark_platform.Prelude.{
  String, List, [], ◌∷◌, Option, none, some, ◌≡◌, ◌↔◌, refl, arith, if◌then◌else◌,
}
use benchmark_platform.Metric.{Workload, Metric, MetricUnit, WorkUnit}
use benchmark_platform.Metric.{all_workloads, all_metrics, all_units}

unfoldable pub workload_to_string : Workload → String
workload_to_string Workload.cpu_int = "cpu_int"
workload_to_string Workload.cpu_fp = "cpu_fp"
workload_to_string Workload.cpu_hash = "cpu_hash"
workload_to_string Workload.mem_bw = "mem_bw"
workload_to_string Workload.mem_latency = "mem_latency"
workload_to_string Workload.disk_seq = "disk_seq"
workload_to_string Workload.disk_rand = "disk_rand"

unfoldable pub metric_to_string : Metric → String
metric_to_string Metric.cpu_int_ops = "cpu_int_ops"
metric_to_string Metric.cpu_fp_ops = "cpu_fp_ops"
metric_to_string Metric.cpu_hash_ops = "cpu_hash_ops"
metric_to_string Metric.mem_read_bw = "mem_read_bw"
metric_to_string Metric.mem_write_bw = "mem_write_bw"
metric_to_string Metric.mem_copy_bw = "mem_copy_bw"
metric_to_string Metric.mem_latency = "mem_latency"
metric_to_string Metric.disk_seq_read_bw = "disk_seq_read_bw"
metric_to_string Metric.disk_seq_write_bw = "disk_seq_write_bw"
metric_to_string Metric.disk_rand_read_iops = "disk_rand_read_iops"
metric_to_string Metric.disk_rand_write_iops = "disk_rand_write_iops"
metric_to_string Metric.disk_rand_read_p99_us = "disk_rand_read_p99_us"

unfoldable pub unit_to_string : MetricUnit → String
unit_to_string MetricUnit.ops_per_s = "ops/s"
unit_to_string MetricUnit.gb_per_s = "GB/s"
unit_to_string MetricUnit.ns = "ns"
unit_to_string MetricUnit.mb_per_s = "MB/s"
unit_to_string MetricUnit.iops = "IOPS"
unit_to_string MetricUnit.us = "us"

unfoldable pub work_unit_to_string : WorkUnit → String
work_unit_to_string WorkUnit.ops = "ops"
work_unit_to_string WorkUnit.bytes = "bytes"
work_unit_to_string WorkUnit.loads = "loads"
work_unit_to_string WorkUnit.ios = "ios"

-- The first element of `all` with the name `s`.
pub parse_enum {ℓ} : {E : Type ℓ} → (E → String) → List E → String → Option E
parse_enum to_string [] s = none
parse_enum to_string (e ∷ all) s =
    let rest = parse_enum to_string all s in if str_eq (to_string e) s then some e else rest

unfoldable pub parse_workload : String → Option Workload
unfolding parse_enum workload_to_string
parse_workload = parse_enum workload_to_string all_workloads

unfoldable pub parse_metric : String → Option Metric
unfolding parse_enum metric_to_string
parse_metric = parse_enum metric_to_string all_metrics

unfoldable pub parse_unit : String → Option MetricUnit
unfolding parse_enum unit_to_string
parse_unit = parse_enum unit_to_string all_units

-- What is found bears the name that was looked for.
parse_enum_sound {ℓ} :
    {E : Type ℓ} (f : E → String) (all : List E) (s : String) (e : E)
    → parse_enum f all s ≡ some e
    → f e ≡ s
unfolding parse_enum
parse_enum_sound f [] s e h = cc
parse_enum_sound f (x ∷ all) s e h = ground (arith, eq_iff (f x) s, parse_enum_sound f all s e)

parse_workload-to_string : (w : Workload) → parse_workload (workload_to_string w) ≡ some w
unfolding parse_workload
parse_workload-to_string Workload.cpu_int = refl
parse_workload-to_string _ = refl

parse_metric-to_string : (m : Metric) → parse_metric (metric_to_string m) ≡ some m
unfolding parse_metric
parse_metric-to_string Metric.cpu_int_ops = refl
parse_metric-to_string _ = refl

parse_unit-to_string : (u : MetricUnit) → parse_unit (unit_to_string u) ≡ some u
unfolding parse_unit
parse_unit-to_string MetricUnit.ops_per_s = refl
parse_unit-to_string _ = refl

-- A text parses as a workload, a metric or a unit exactly when it is the name that to_string
-- gives to that workload, metric or unit.
pub parse_iff :
    (s : String)
    → ((w : Workload) → (parse_workload s ≡ some w) ↔ (workload_to_string w ≡ s))
      × ((m : Metric) → (parse_metric s ≡ some m) ↔ (metric_to_string m ≡ s))
      × ((u : MetricUnit) → (parse_unit s ≡ some u) ↔ (unit_to_string u ≡ s))
unfolding parse_workload parse_metric parse_unit
parse_iff s = (
  λ w. (
    parse_enum_sound workload_to_string all_workloads s w,
    λ e. rw (← e) (parse_workload-to_string w),
  ),
  λ m.
      (parse_enum_sound metric_to_string all_metrics s m, λ e. rw (← e) (parse_metric-to_string m)),
  λ u. (parse_enum_sound unit_to_string all_units s u, λ e. rw (← e) (parse_unit-to_string u)),
)
