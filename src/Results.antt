-- ===== src/Results.antt =====
-- engine/include/bench/result.hpp and engine/src/result.cpp: the report of a run and its JSON text's
-- document. The member `params` of a result is a JSON value of its own.
pub mod Members
pub mod Read
pub mod RoundTrip
use benchmark_platform.Prelude.{ℕ, String, List, [], ◌∷◌, map}
use benchmark_platform.Prelude.Int.{ℤ}
use benchmark_platform.Prelude.Json.{JsonLib}
use benchmark_platform.Metric.{Workload, Metric, unit_of}
use benchmark_platform.Metric.Names.{workload_to_string, metric_to_string, unit_to_string}

pub record MachineInfo : Type 0 where
  pub id : String
  pub hostname : String
  pub cpu_model : String
  pub physical_cores : ℤ
  pub logical_cpus : ℤ
  pub l1d_kb : ℤ
  pub l2_kb : ℤ
  pub l3_kb : ℤ
  pub memory_bytes : ℕ
  pub os : String
  pub kernel : String
  pub compiler : String
  pub compiler_flags : String
  pub engine_version : String
  pub engine_git_sha : String
  pub virtualized : String

pub record ResultRow (D J : Type 0) : Type 0 where
  pub workload : Workload
  pub thread_count : ℤ
  pub working_set_bytes : ℕ
  pub metric : Metric
  pub value : D
  pub trial : ℤ
  pub timestamp : String
  pub duration_ns : ℕ
  pub params : J

pub record SummaryRow (D : Type 0) : Type 0 where
  pub workload : Workload
  pub metric : Metric
  pub thread_count : ℤ
  pub working_set_bytes : ℕ
  pub n : ℤ
  pub mean : D
  pub median : D
  pub stddev : D
  pub cov : D
  pub min : D
  pub p5 : D
  pub p95 : D
  pub max : D
  pub mad : D
  pub late_trials : ℤ
  pub canary_attempts : ℤ
  pub clock_call_ns_start : D
  pub clock_call_ns_end : D

pub record RunEnvelope (D J : Type 0) : Type 0 where
  pub schema_version : ℤ
  pub run_id : String
  pub started_at : String
  pub finished_at : String
  pub machine : MachineInfo
  pub argv : List String
  pub results : List (ResultRow D J)
  pub summary : List (SummaryRow D)

module _ {D : Type 0} (lib : JsonLib D) where
  open lib use {Json, object, array, string, integer, unsigned, double}

  abbrev pub machine_members : MachineInfo → List (String × Json)
  machine_members m =
      ("id", string m.id)
      ∷ ("hostname", string m.hostname)
      ∷ ("cpu_model", string m.cpu_model)
      ∷ ("physical_cores", integer m.physical_cores)
      ∷ ("logical_cpus", integer m.logical_cpus)
      ∷ ("l1d_kb", integer m.l1d_kb)
      ∷ ("l2_kb", integer m.l2_kb)
      ∷ ("l3_kb", integer m.l3_kb)
      ∷ ("memory_bytes", unsigned m.memory_bytes)
      ∷ ("os", string m.os)
      ∷ ("kernel", string m.kernel)
      ∷ ("compiler", string m.compiler)
      ∷ ("compiler_flags", string m.compiler_flags)
      ∷ ("engine_version", string m.engine_version)
      ∷ ("engine_git_sha", string m.engine_git_sha)
      ∷ ("virtualized", string m.virtualized)
      ∷ []

  abbrev pub result_members : ResultRow D Json → List (String × Json)
  result_members r =
      ("workload", string (workload_to_string r.workload))
      ∷ ("thread_count", integer r.thread_count)
      ∷ ("working_set_bytes", unsigned r.working_set_bytes)
      ∷ ("metric", string (metric_to_string r.metric))
      ∷ ("value", double r.value)
      ∷ ("unit", string (unit_to_string (unit_of r.metric)))
      ∷ ("trial", integer r.trial)
      ∷ ("timestamp", string r.timestamp)
      ∷ ("duration_ns", unsigned r.duration_ns)
      ∷ ("params", r.params)
      ∷ []

  abbrev pub summary_members : SummaryRow D → List (String × Json)
  summary_members s =
      ("workload", string (workload_to_string s.workload))
      ∷ ("metric", string (metric_to_string s.metric))
      ∷ ("thread_count", integer s.thread_count)
      ∷ ("working_set_bytes", unsigned s.working_set_bytes)
      ∷ ("n", integer s.n)
      ∷ ("mean", double s.mean)
      ∷ ("median", double s.median)
      ∷ ("stddev", double s.stddev)
      ∷ ("cov", double s.cov)
      ∷ ("min", double s.min)
      ∷ ("p5", double s.p5)
      ∷ ("p95", double s.p95)
      ∷ ("max", double s.max)
      ∷ ("mad", double s.mad)
      ∷ ("late_trials", integer s.late_trials)
      ∷ ("canary_attempts", integer s.canary_attempts)
      ∷ ("clock_call_ns_start", double s.clock_call_ns_start)
      ∷ ("clock_call_ns_end", double s.clock_call_ns_end)
      ∷ []

  unfoldable pub machine_to_json : MachineInfo → Json
  machine_to_json m = object (machine_members m)

  unfoldable pub result_to_json : ResultRow D Json → Json
  result_to_json r = object (result_members r)

  unfoldable pub summary_to_json : SummaryRow D → Json
  summary_to_json s = object (summary_members s)

  abbrev pub run_members : RunEnvelope D Json → List (String × Json)
  run_members run =
      ("schema_version", integer run.schema_version)
      ∷ ("run_id", string run.run_id)
      ∷ ("started_at", string run.started_at)
      ∷ ("finished_at", string run.finished_at)
      ∷ ("machine", machine_to_json run.machine)
      ∷ ("argv", array (map string run.argv))
      ∷ ("results", array (map result_to_json run.results))
      ∷ ("summary", array (map summary_to_json run.summary))
      ∷ []

  unfoldable pub run_to_json : RunEnvelope D Json → Json
  run_to_json run = object (run_members run)
