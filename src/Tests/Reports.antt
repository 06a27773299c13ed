-- ===== src/Tests/Reports.antt =====
-- A report of a run: the theorems at concrete inputs.
use benchmark_platform.Prelude.{ℕ, ◌≡◌, ◌↔◌, refl, arith, [], ◌∷◌}
use benchmark_platform.Prelude.Int.{pos}
use benchmark_platform.Prelude.Result.{ok}
use benchmark_platform.Metric.{Workload, Metric}
use benchmark_platform.Results.{MachineInfo, ResultRow, SummaryRow, RunEnvelope, run_to_json}
use benchmark_platform.Results.Read.{run_from_json}
use benchmark_platform.Results.RoundTrip.{run_from_json-to_json}
use benchmark_platform.Validate.{validate_run}
use benchmark_platform.Validate.Accepts.{IsGood, validate_run_iff}
use benchmark_platform.Tests.Documents.{Document, documents, pack_members}

abbrev box : MachineInfo
box = record {
  id = "0123456789abcdef0123456789abcdef";
  hostname = "box";
  cpu_model = "cpu";
  physical_cores = pos 4;
  logical_cpus = pos 8;
  l1d_kb = pos 32;
  l2_kb = pos 512;
  l3_kb = pos 16384;
  memory_bytes = 17179869184;
  os = "Linux";
  kernel = "6.1";
  compiler = "g++ 13";
  compiler_flags = "-O2";
  engine_version = "1.0";
  engine_git_sha = "abc";
  virtualized = "none";
}

abbrev row : ResultRow ℕ Document
row = record {
  workload = Workload.cpu_int;
  thread_count = pos 2;
  working_set_bytes = 0;
  metric = Metric.cpu_int_ops;
  value = 7;
  trial = pos 0;
  timestamp = "2026-09-18T15:47:00.123456Z";
  duration_ns = 50000000;
  params = Document.object (pack_members (("cold", Document.string "clflush") ∷ []));
}

abbrev line : SummaryRow ℕ
line = record {
  workload = Workload.cpu_int;
  metric = Metric.cpu_int_ops;
  thread_count = pos 2;
  working_set_bytes = 0;
  n = pos 1;
  mean = 7;
  median = 7;
  stddev = 0;
  cov = 0;
  min = 7;
  p5 = 7;
  p95 = 7;
  max = 7;
  mad = 0;
  late_trials = pos 0;
  canary_attempts = pos 1;
  clock_call_ns_start = 20;
  clock_call_ns_end = 21;
}

abbrev report : RunEnvelope ℕ Document
report = record {
  schema_version = pos 1;
  run_id = "01234567-89ab-4def-8123-456789abcdef";
  started_at = "2026-09-18T15:47:00Z";
  finished_at = "2026-09-18T15:48:00.5Z";
  machine = box;
  argv = "bench" ∷ "run" ∷ [];
  results = row ∷ [];
  summary = line ∷ [];
}

run_from_json-to_json_example : run_from_json documents (run_to_json documents report) ≡ ok report
run_from_json-to_json_example =
    run_from_json-to_json documents report refl
      (omega arith, omega arith, omega arith, omega arith, omega arith, omega arith)
      ((omega arith, omega arith, omega arith, omega arith), tt)
      ((omega arith, omega arith, omega arith, omega arith, omega arith), tt)

validate_run_iff_example :
    (validate_run documents (run_to_json documents report) ≡ []) ↔ IsGood documents report
validate_run_iff_example =
    validate_run_iff documents report (omega arith)
      ((omega arith, omega arith, omega arith, omega arith), tt)
      ((omega arith, omega arith, omega arith, omega arith, omega arith), tt)
