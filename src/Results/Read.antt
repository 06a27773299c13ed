-- ===== src/Results/Read.antt =====
-- engine/src/result.cpp: the strict readers of a report. An exception is an error, with the key that
-- it names in place of the text.
use benchmark_platform.Prelude.{
  ℕ, String, Bool, Option, none, some, List, [], ◌∷◌, ◌==◌, if◌then◌else◌,
}
use benchmark_platform.Prelude.Int.{ℤ, pos, negsuc}
use benchmark_platform.Prelude.Json.{JsonLib}
use benchmark_platform.Prelude.Result.{Result, ok, err, ◌>>=◌, ◌>>◌}
use benchmark_platform.Metric.{Metric, MetricUnit, unit_of}
use benchmark_platform.Metric.Names.{parse_workload, parse_metric, parse_unit}
use benchmark_platform.Results.{MachineInfo, ResultRow, SummaryRow, RunEnvelope}

pub data ReadError : Type 0 where
  missing wrong_type unknown_value : (key : String) → ReadError
  unsupported_schema : ReadError

-- `MetricUnit ==`, on the underlying values of the enum
abbrev pub unit_index : MetricUnit → ℕ
unit_index MetricUnit.ops_per_s = 0
unit_index MetricUnit.gb_per_s = 1
unit_index MetricUnit.ns = 2
unit_index MetricUnit.mb_per_s = 3
unit_index MetricUnit.iops = 4
unit_index MetricUnit.us = 5

abbrev pub unit_eq : MetricUnit → MetricUnit → Bool
unit_eq a b = unit_index a == unit_index b

unfoldable pub known : {E : Type 0} → (String → Option E) → (key s : String) → Result ReadError E
known parse key s = elim (parse s) [ none ↦ err (unknown_value key) | some e ↦ ok e ]

-- `if (!un || *un != unit_of(r.metric)) throw`
unfoldable pub same_unit : Metric → String → Result ReadError (Unit {0})
same_unit m s = elim (parse_unit s) [
  | none ↦ err (unknown_value "unit")
  | some u ↦ if unit_eq u (unit_of m) then ok tt else err (unknown_value "unit")
]

unfoldable pub schema_one : ℤ → Result ReadError (Unit {0})
schema_one (pos n) = if n == 1 then ok tt else err unsupported_schema
schema_one (negsuc n) = err unsupported_schema

module _ {D : Type 0} (lib : JsonLib D) where
  open lib use {
    Json, object, find, elements, get_string, get_int, get_u64, get_double, get_strings,
    zero_double,
  }

  unfoldable pub get_required :
      {T : Type 0} → (Json → Option T) → String → Json → Result ReadError T
  get_required get key j = elim (find key j) [
    | none ↦ err (missing key)
    | some v ↦ elim (get v) [ none ↦ err (wrong_type key) | some a ↦ ok a ]
  ]

  -- `j.value(key, otherwise)`
  unfoldable pub value_or :
      {T : Type 0} → (Json → Option T) → (otherwise : T) → String → Json → Result ReadError T
  value_or get otherwise key j = elim (find key j) [
    | none ↦ ok otherwise
    | some v ↦ elim (get v) [ none ↦ err (wrong_type key) | some a ↦ ok a ]
  ]

  unfoldable pub machine_from_json : Json → Result ReadError MachineInfo
  machine_from_json j = do
    id ← get_required get_string "id" j
    hostname ← get_required get_string "hostname" j
    cpu_model ← get_required get_string "cpu_model" j
    physical_cores ← get_required get_int "physical_cores" j
    logical_cpus ← get_required get_int "logical_cpus" j
    l1d_kb ← get_required get_int "l1d_kb" j
    l2_kb ← get_required get_int "l2_kb" j
    l3_kb ← get_required get_int "l3_kb" j
    memory_bytes ← get_required get_u64 "memory_bytes" j
    os ← get_required get_string "os" j
    kernel ← get_required get_string "kernel" j
    compiler ← get_required get_string "compiler" j
    compiler_flags ← get_required get_string "compiler_flags" j
    engine_version ← get_required get_string "engine_version" j
    engine_git_sha ← get_required get_string "engine_git_sha" j
    virtualized ← value_or get_string "" "virtualized" j
    ok (record {
      id = id;
      hostname = hostname;
      cpu_model = cpu_model;
      physical_cores = physical_cores;
      logical_cpus = logical_cpus;
      l1d_kb = l1d_kb;
      l2_kb = l2_kb;
      l3_kb = l3_kb;
      memory_bytes = memory_bytes;
      os = os;
      kernel = kernel;
      compiler = compiler;
      compiler_flags = compiler_flags;
      engine_version = engine_version;
      engine_git_sha = engine_git_sha;
      virtualized = virtualized;
    })

  unfoldable pub result_from_json : Json → Result ReadError (ResultRow D Json)
  result_from_json j = do
    workload_name ← get_required get_string "workload" j
    workload ← known parse_workload "workload" workload_name
    thread_count ← get_required get_int "thread_count" j
    working_set_bytes ← get_required get_u64 "working_set_bytes" j
    metric_name ← get_required get_string "metric" j
    metric ← known parse_metric "metric" metric_name
    value ← get_required get_double "value" j
    unit_name ← get_required get_string "unit" j
    same_unit metric unit_name
    trial ← get_required get_int "trial" j
    timestamp ← get_required get_string "timestamp" j
    duration_ns ← get_required get_u64 "duration_ns" j
    params ← value_or some (object []) "params" j
    ok (record {
      workload = workload;
      thread_count = thread_count;
      working_set_bytes = working_set_bytes;
      metric = metric;
      value = value;
      trial = trial;
      timestamp = timestamp;
      duration_ns = duration_ns;
      params = params;
    })

  unfoldable pub summary_from_json : Json → Result ReadError (SummaryRow D)
  summary_from_json j = do
    workload_name ← get_required get_string "workload" j
    metric_name ← get_required get_string "metric" j
    workload ← known parse_workload "workload" workload_name
    metric ← known parse_metric "metric" metric_name
    thread_count ← get_required get_int "thread_count" j
    working_set_bytes ← get_required get_u64 "working_set_bytes" j
    n ← get_required get_int "n" j
    mean ← get_required get_double "mean" j
    median ← get_required get_double "median" j
    stddev ← get_required get_double "stddev" j
    cov ← get_required get_double "cov" j
    min ← get_required get_double "min" j
    p5 ← get_required get_double "p5" j
    p95 ← get_required get_double "p95" j
    max ← get_required get_double "max" j
    mad ← value_or get_double zero_double "mad" j
    late_trials ← value_or get_int (pos 0) "late_trials" j
    canary_attempts ← value_or get_int (pos 1) "canary_attempts" j
    clock_call_ns_start ← value_or get_double zero_double "clock_call_ns_start" j
    clock_call_ns_end ← value_or get_double zero_double "clock_call_ns_end" j
    ok (record {
      workload = workload;
      metric = metric;
      thread_count = thread_count;
      working_set_bytes = working_set_bytes;
      n = n;
      mean = mean;
      median = median;
      stddev = stddev;
      cov = cov;
      min = min;
      p5 = p5;
      p95 = p95;
      max = max;
      mad = mad;
      late_trials = late_trials;
      canary_attempts = canary_attempts;
      clock_call_ns_start = clock_call_ns_start;
      clock_call_ns_end = clock_call_ns_end;
    })

  -- A loop that appends what it reads of each element.
  unfoldable pub read_each :
      {T : Type 0} → (Json → Result ReadError T) → List Json → Result ReadError (List T)
  read_each read [] = ok []
  read_each read (j ∷ js) = do a ← read j; more ← read_each read js; ok (a ∷ more)

  abbrev pub elements_of : Option Json → List Json
  elements_of none = []
  elements_of (some j) = elements j

  unfoldable pub run_from_json : Json → Result ReadError (RunEnvelope D Json)
  run_from_json j = do
    schema_version ← get_required get_int "schema_version" j
    schema_one schema_version
    run_id ← get_required get_string "run_id" j
    started_at ← get_required get_string "started_at" j
    finished_at ← get_required get_string "finished_at" j
    machine_json ← get_required some "machine" j
    machine ← machine_from_json machine_json
    argv ← get_required get_strings "argv" j
    results_json ← get_required some "results" j
    results ← read_each result_from_json (elements results_json)
    summary ← read_each summary_from_json (elements_of (find "summary" j))
    ok (record {
      schema_version = schema_version;
      run_id = run_id;
      started_at = started_at;
      finished_at = finished_at;
      machine = machine;
      argv = argv;
      results = results;
      summary = summary;
    })
