-- ===== src/Tests/Metrics.antt =====
-- `engine/src/metric.cpp` and the registry: the theorems at concrete inputs.
use benchmark_platform.Prelude.{◌≡◌, arith, inr, if◌then◌else◌}
use benchmark_platform.Metric.{Workload, Metric, unit_of, workload_of}
use benchmark_platform.Metric.Tables.{metrics_of, groups, count, workload_eq, metrics_of_complete}
use benchmark_platform.Metric.Value.{value_from_units}
use benchmark_platform.Metric.Value.Exact.{Worth, value_from_units-Earns}
use benchmark_platform.Tests.Fraction.{fractions, Whole}

metrics_of_complete_example :
    count Metric.mem_copy_bw (groups (metrics_of Workload.mem_bw))
    ≡ (if workload_eq (workload_of Metric.mem_copy_bw) Workload.mem_bw then 1 else 0)
metrics_of_complete_example = metrics_of_complete Workload.mem_bw Metric.mem_copy_bw

-- 131072 loads by 2 threads in 6.5536 ms, 100 ns for each load
latency : Worth (unit_of Metric.mem_latency) 131072 6_553_600 2 100
unfolding unit_of
latency = Worth.latency 131072 6_553_600 2 100 65536 (omega arith) (omega arith) (omega arith)

value_from_units-Earns_example :
    Whole 100 (value_from_units fractions Metric.mem_latency 131072 6_553_600 2)
value_from_units-Earns_example =
    value_from_units-Earns fractions Metric.mem_latency 131072 6_553_600 2 100 (omega arith)
      (omega arith) (omega arith) (omega arith)
      (inr (omega arith, omega arith, omega arith, latency))
