-- ===== src/Metric.antt =====
-- engine/include/bench/metric.hpp and engine/src/metric.cpp: the normative enums of workloads,
-- metrics and units, their text names, and what each metric counts and reports.
-- `switch` statements are clauses; the unreachable `return` after each of them has no clause.
pub mod Names
pub mod Tables
pub mod Value
use benchmark_platform.Prelude.{List, [], ◌∷◌, Bool, true, false}

pub data Workload : Type 0 where
  cpu_int cpu_fp cpu_hash mem_bw mem_latency disk_seq disk_rand : Workload

pub data Metric : Type 0 where
  cpu_int_ops cpu_fp_ops cpu_hash_ops : Metric
  mem_read_bw mem_write_bw mem_copy_bw : Metric
  mem_latency : Metric
  disk_seq_read_bw disk_seq_write_bw : Metric
  disk_rand_read_iops disk_rand_write_iops disk_rand_read_p99_us : Metric

-- `enum class Unit`
pub data MetricUnit : Type 0 where
  ops_per_s gb_per_s ns mb_per_s iops us : MetricUnit

pub data WorkUnit : Type 0 where
  ops bytes loads ios : WorkUnit

pub data ValueRule : Type 0 where
  units_per_s giga_units_per_s mega_units_per_s ns_per_unit latency_p99_us : ValueRule

abbrev pub all_workloads : List Workload
all_workloads =
    Workload.cpu_int ∷ Workload.cpu_fp ∷ Workload.cpu_hash ∷ Workload.mem_bw ∷ Workload.mem_latency
    ∷ Workload.disk_seq ∷ Workload.disk_rand ∷ []

abbrev pub all_metrics : List Metric
all_metrics =
    Metric.cpu_int_ops ∷ Metric.cpu_fp_ops ∷ Metric.cpu_hash_ops ∷ Metric.mem_read_bw
    ∷ Metric.mem_write_bw ∷ Metric.mem_copy_bw ∷ Metric.mem_latency ∷ Metric.disk_seq_read_bw
    ∷ Metric.disk_seq_write_bw ∷ Metric.disk_rand_read_iops ∷ Metric.disk_rand_write_iops
    ∷ Metric.disk_rand_read_p99_us ∷ []

abbrev pub all_units : List MetricUnit
all_units =
    MetricUnit.ops_per_s ∷ MetricUnit.gb_per_s ∷ MetricUnit.ns ∷ MetricUnit.mb_per_s
    ∷ MetricUnit.iops ∷ MetricUnit.us ∷ []

unfoldable pub unit_of : Metric → MetricUnit
unit_of Metric.cpu_int_ops = MetricUnit.ops_per_s
unit_of Metric.cpu_fp_ops = MetricUnit.ops_per_s
unit_of Metric.cpu_hash_ops = MetricUnit.ops_per_s
unit_of Metric.mem_read_bw = MetricUnit.gb_per_s
unit_of Metric.mem_write_bw = MetricUnit.gb_per_s
unit_of Metric.mem_copy_bw = MetricUnit.gb_per_s
unit_of Metric.mem_latency = MetricUnit.ns
unit_of Metric.disk_seq_read_bw = MetricUnit.mb_per_s
unit_of Metric.disk_seq_write_bw = MetricUnit.mb_per_s
unit_of Metric.disk_rand_read_iops = MetricUnit.iops
unit_of Metric.disk_rand_write_iops = MetricUnit.iops
unit_of Metric.disk_rand_read_p99_us = MetricUnit.us

unfoldable pub workload_of : Metric → Workload
workload_of Metric.cpu_int_ops = Workload.cpu_int
workload_of Metric.cpu_fp_ops = Workload.cpu_fp
workload_of Metric.cpu_hash_ops = Workload.cpu_hash
workload_of Metric.mem_read_bw = Workload.mem_bw
workload_of Metric.mem_write_bw = Workload.mem_bw
workload_of Metric.mem_copy_bw = Workload.mem_bw
workload_of Metric.mem_latency = Workload.mem_latency
workload_of Metric.disk_seq_read_bw = Workload.disk_seq
workload_of Metric.disk_seq_write_bw = Workload.disk_seq
workload_of Metric.disk_rand_read_iops = Workload.disk_rand
workload_of Metric.disk_rand_write_iops = Workload.disk_rand
workload_of Metric.disk_rand_read_p99_us = Workload.disk_rand

unfoldable pub lower_is_better : Metric → Bool
lower_is_better Metric.mem_latency = true
lower_is_better Metric.disk_rand_read_p99_us = true
lower_is_better _ = false

unfoldable pub work_unit_of : Metric → WorkUnit
work_unit_of Metric.cpu_int_ops = WorkUnit.ops
work_unit_of Metric.cpu_fp_ops = WorkUnit.ops
work_unit_of Metric.cpu_hash_ops = WorkUnit.ops
work_unit_of Metric.mem_read_bw = WorkUnit.bytes
work_unit_of Metric.mem_write_bw = WorkUnit.bytes
work_unit_of Metric.mem_copy_bw = WorkUnit.bytes
work_unit_of Metric.disk_seq_read_bw = WorkUnit.bytes
work_unit_of Metric.disk_seq_write_bw = WorkUnit.bytes
work_unit_of Metric.mem_latency = WorkUnit.loads
work_unit_of Metric.disk_rand_read_iops = WorkUnit.ios
work_unit_of Metric.disk_rand_write_iops = WorkUnit.ios
work_unit_of Metric.disk_rand_read_p99_us = WorkUnit.ios

unfoldable pub value_rule_of : Metric → ValueRule
value_rule_of Metric.cpu_int_ops = ValueRule.units_per_s
value_rule_of Metric.cpu_fp_ops = ValueRule.units_per_s
value_rule_of Metric.cpu_hash_ops = ValueRule.units_per_s
value_rule_of Metric.disk_rand_read_iops = ValueRule.units_per_s
value_rule_of Metric.disk_rand_write_iops = ValueRule.units_per_s
value_rule_of Metric.mem_read_bw = ValueRule.giga_units_per_s
value_rule_of Metric.mem_write_bw = ValueRule.giga_units_per_s
value_rule_of Metric.mem_copy_bw = ValueRule.giga_units_per_s
value_rule_of Metric.disk_seq_read_bw = ValueRule.mega_units_per_s
value_rule_of Metric.disk_seq_write_bw = ValueRule.mega_units_per_s
value_rule_of Metric.mem_latency = ValueRule.ns_per_unit
value_rule_of Metric.disk_rand_read_p99_us = ValueRule.latency_p99_us
