-- ===== src/Results/RoundTrip.antt =====
-- What the readers of a report make of a report that was written.
use benchmark_platform.Prelude.{◌≡◌, refl, String, some, List, [], ◌∷◌, map, All, arith}
use benchmark_platform.Prelude.Int.{pos}
use benchmark_platform.Prelude.Json.{JsonLib, IsInt}
use benchmark_platform.Prelude.Result.{Result, ok}
use benchmark_platform.Metric.{unit_of}
use benchmark_platform.Metric.Names.{workload_to_string, metric_to_string, unit_to_string}
use benchmark_platform.Results.{
  MachineInfo, ResultRow, SummaryRow, RunEnvelope, machine_members, result_members, summary_members,
  run_members, machine_to_json, result_to_json, summary_to_json, run_to_json,
}
use benchmark_platform.Results.Read.{
  ReadError, schema_one, machine_from_json, result_from_json, summary_from_json, read_each,
  run_from_json,
}
use benchmark_platform.Results.Members.{
  known_workload, known_metric, same_unit-unit_of, schema_one-one, FitsMachine, FitsResult,
  FitsSummary, required_at, value_at, string_at, int_at, u64_at, double_at, double_or_at, int_or_at,
}

All_weaken :
    {A : Type 0} {P Q : A → Type 0} → ((x : A) → P x → Q x) → (xs : List A) → All P xs → All Q xs
All_weaken f [] h = tt
All_weaken f (x ∷ xs) h = (f x h.0, All_weaken f xs h.1)

module _ {D : Type 0} (lib : JsonLib D) where
  open lib use {Json, object, array, string}

  machine_from_json-to_json :
      (m : MachineInfo) → FitsMachine m → machine_from_json lib (machine_to_json lib m) ≡ ok m
  unfolding machine_from_json machine_to_json
  machine_from_json-to_json m (cores, cpus, l1, l2, l3, memory) =
      let ms : List (String × Json) = machine_members lib m in
      rw
        (
          string_at lib "id" ms m.id refl refl,
          string_at lib "hostname" ms m.hostname refl refl,
          string_at lib "cpu_model" ms m.cpu_model refl refl,
          int_at lib "physical_cores" ms m.physical_cores refl refl cores,
          int_at lib "logical_cpus" ms m.logical_cpus refl refl cpus,
          int_at lib "l1d_kb" ms m.l1d_kb refl refl l1,
          int_at lib "l2_kb" ms m.l2_kb refl refl l2,
          int_at lib "l3_kb" ms m.l3_kb refl refl l3,
          u64_at lib "memory_bytes" ms m.memory_bytes refl refl memory,
          string_at lib "os" ms m.os refl refl,
          string_at lib "kernel" ms m.kernel refl refl,
          string_at lib "compiler" ms m.compiler refl refl,
          string_at lib "compiler_flags" ms m.compiler_flags refl refl,
          string_at lib "engine_version" ms m.engine_version refl refl,
          string_at lib "engine_git_sha" ms m.engine_git_sha refl refl,
          value_at lib lib.get_string "" "virtualized" ms (string m.virtualized) m.virtualized refl
              refl (lib.get_string-string m.virtualized),
        )
        refl

  result_from_json-to_json :
      (r : ResultRow D Json) → FitsResult r → result_from_json lib (result_to_json lib r) ≡ ok r
  unfolding result_from_json result_to_json
  result_from_json-to_json r (threads, trial, ws, duration) =
      let ms : List (String × Json) = result_members lib r in
      rw
        (
          string_at lib "workload" ms (workload_to_string r.workload) refl refl,
          known_workload "workload" r.workload,
          int_at lib "thread_count" ms r.thread_count refl refl threads,
          u64_at lib "working_set_bytes" ms r.working_set_bytes refl refl ws,
          string_at lib "metric" ms (metric_to_string r.metric) refl refl,
          known_metric "metric" r.metric,
          double_at lib "value" ms r.value refl refl,
          string_at lib "unit" ms (unit_to_string (unit_of r.metric)) refl refl,
          same_unit-unit_of r.metric,
          int_at lib "trial" ms r.trial refl refl trial,
          string_at lib "timestamp" ms r.timestamp refl refl,
          u64_at lib "duration_ns" ms r.duration_ns refl refl duration,
          value_at lib some (object []) "params" ms r.params r.params refl refl refl,
        )
        refl

  summary_from_json-to_json :
      (s : SummaryRow D) → FitsSummary s → summary_from_json lib (summary_to_json lib s) ≡ ok s
  unfolding summary_from_json summary_to_json
  summary_from_json-to_json s (threads, n, late, attempts, ws) =
      let ms : List (String × Json) = summary_members lib s in
      rw
        (
          string_at lib "workload" ms (workload_to_string s.workload) refl refl,
          string_at lib "metric" ms (metric_to_string s.metric) refl refl,
          known_workload "workload" s.workload,
          known_metric "metric" s.metric,
          int_at lib "thread_count" ms s.thread_count refl refl threads,
          u64_at lib "working_set_bytes" ms s.working_set_bytes refl refl ws,
          int_at lib "n" ms s.n refl refl n,
          double_at lib "mean" ms s.mean refl refl,
          double_at lib "median" ms s.median refl refl,
          double_at lib "stddev" ms s.stddev refl refl,
          double_at lib "cov" ms s.cov refl refl,
          double_at lib "min" ms s.min refl refl,
          double_at lib "p5" ms s.p5 refl refl,
          double_at lib "p95" ms s.p95 refl refl,
          double_at lib "max" ms s.max refl refl,
          double_or_at lib "mad" ms s.mad refl refl,
          int_or_at lib (pos 0) "late_trials" ms s.late_trials refl refl late,
          int_or_at lib (pos 1) "canary_attempts" ms s.canary_attempts refl refl attempts,
          double_or_at lib "clock_call_ns_start" ms s.clock_call_ns_start refl refl,
          double_or_at lib "clock_call_ns_end" ms s.clock_call_ns_end refl refl,
        )
        refl

  read_each-map :
      {A : Type 0} (read : Json → Result ReadError A) (write : A → Json) (xs : List A)
      → All (λ x. read (write x) ≡ ok x) xs
      → read_each lib read (map write xs) ≡ ok xs
  unfolding read_each
  read_each-map read write [] h = refl
  read_each-map read write (x ∷ xs) h = rw (h.0, read_each-map read write xs h.1) refl

  -- The report that is read from the JSON of a report is that report, for the schema version 1
  -- and numbers that fit the types of their members.
  pub run_from_json-to_json :
      (run : RunEnvelope D Json)
      → run.schema_version ≡ pos 1
      → FitsMachine run.machine
      → All FitsResult run.results
      → All FitsSummary run.summary
      → run_from_json lib (run_to_json lib run) ≡ ok run
  unfolding run_from_json run_to_json schema_one
  run_from_json-to_json run one machine results summary =
      let ms : List (String × Json) = run_members lib run in
      let version : IsInt run.schema_version = rw one (omega arith) in
      rw
        (
          int_at lib "schema_version" ms run.schema_version refl refl version,
          schema_one-one run.schema_version one,
          string_at lib "run_id" ms run.run_id refl refl,
          string_at lib "started_at" ms run.started_at refl refl,
          string_at lib "finished_at" ms run.finished_at refl refl,
          required_at lib some "machine" ms (machine_to_json lib run.machine)
              (machine_to_json lib run.machine) refl refl refl,
          machine_from_json-to_json run.machine machine,
          required_at lib lib.get_strings "argv" ms (array (map string run.argv)) run.argv refl refl
              (lib.get_strings-array run.argv),
          required_at lib some "results" ms (array (map (result_to_json lib) run.results))
              (array (map (result_to_json lib) run.results)) refl refl refl,
          lib.elements-array (map (result_to_json lib) run.results),
          read_each-map (result_from_json lib) (result_to_json lib) run.results
              (All_weaken result_from_json-to_json run.results results),
          lib.find-object "summary" ms refl,
          lib.elements-array (map (summary_to_json lib) run.summary),
          read_each-map (summary_from_json lib) (summary_to_json lib) run.summary
              (All_weaken summary_from_json-to_json run.summary summary),
        )
        refl
