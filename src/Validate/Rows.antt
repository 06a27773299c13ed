-- ===== src/Validate/Rows.antt =====
-- The checks of a machine, a result and a summary that the engine writes: the problems that may be
-- left.
use benchmark_platform.Prelude.{
  ℕ, ◌≡◌, refl, String, Bool, not, none, some, List, [], ◌∷◌, if◌then◌else◌, flatten,
}
use benchmark_platform.Prelude.Int.{pos, ltb_int}
use benchmark_platform.Prelude.Json.{JsonLib}
use benchmark_platform.Prelude.Text.{codes}
use benchmark_platform.Metric.{Workload, Metric, workload_of, unit_of}
use benchmark_platform.Metric.Names.{
  parse_workload, parse_metric, parse_unit, workload_to_string, metric_to_string, unit_to_string,
  parse_iff,
}
use benchmark_platform.Metric.Tables.{workload_eq}
use benchmark_platform.Results.{
  MachineInfo, ResultRow, SummaryRow, machine_members, result_members, summary_members,
  machine_to_json, result_to_json, summary_to_json,
}
use benchmark_platform.Results.Read.{unit_eq}
use benchmark_platform.Results.Members.{unit_eq_self, FitsResult, FitsSummary}
use benchmark_platform.Validate.Patterns.{is_timestamp, is_machine_id}
use benchmark_platform.Validate.{
  Place, Problem, problem_if, malformed, mismatch, out_of_range, wrong_order, check_machine,
  check_result, check_summary, check_params,
}
use benchmark_platform.Validate.Fields

workload_named : (w : Workload) → parse_workload (workload_to_string w) ≡ some w
workload_named w = ((parse_iff (workload_to_string w)).0 w).1 refl

metric_named : (m : Metric) → parse_metric (metric_to_string m) ≡ some m
metric_named m = ((parse_iff (metric_to_string m)).1 m).1 refl

unit_named : (m : Metric) → parse_unit (unit_to_string (unit_of m)) ≡ some (unit_of m)
unit_named m = ((parse_iff (unit_to_string (unit_of m))).2 (unit_of m)).1 refl

module _ {D : Type 0} (lib : JsonLib D) where
  open lib use {
    Json, object, array, string, integer, unsigned, double, less, is_finite, zero_double,
  }

  pub check_machine-to_json :
      (m : MachineInfo)
      → check_machine lib (machine_to_json lib m)
        ≡ flatten
            (problem_if (not (is_machine_id (codes m.id))) (malformed Place.machine "id") ∷ [])
  unfolding check_machine machine_to_json
  check_machine-to_json m =
      let ms : List (String × Json) = machine_members lib m in
      let w : Place = Place.machine in
      rw
        (
          lib.is_object-object ms,
          Fields.require_string lib ms w "id" m.id refl refl,
          Fields.require_string lib ms w "hostname" m.hostname refl refl,
          Fields.require_string lib ms w "cpu_model" m.cpu_model refl refl,
          Fields.require_string lib ms w "os" m.os refl refl,
          Fields.require_string lib ms w "kernel" m.kernel refl refl,
          Fields.require_string lib ms w "compiler" m.compiler refl refl,
          Fields.require_string lib ms w "compiler_flags" m.compiler_flags refl refl,
          Fields.require_string lib ms w "engine_version" m.engine_version refl refl,
          Fields.require_string lib ms w "engine_git_sha" m.engine_git_sha refl refl,
          Fields.require_int lib ms w "physical_cores" m.physical_cores refl refl,
          Fields.require_int lib ms w "logical_cpus" m.logical_cpus refl refl,
          Fields.require_int lib ms w "l1d_kb" m.l1d_kb refl refl,
          Fields.require_int lib ms w "l2_kb" m.l2_kb refl refl,
          Fields.require_int lib ms w "l3_kb" m.l3_kb refl refl,
          Fields.require_unsigned lib ms w "memory_bytes" m.memory_bytes refl refl,
          Fields.check_string_at lib ms (λ s. is_machine_id (codes s)) w "id" m.id refl refl,
        )
        refl

  -- What is left of the checks of a result.
  abbrev pub result_problems : ℕ → ResultRow D Json → List (List Problem)
  result_problems i r =
      let w = Place.result i in
      problem_if (not (workload_eq r.workload (workload_of r.metric))) (mismatch w "workload")
      ∷ problem_if (not (is_timestamp (codes r.timestamp))) (malformed w "timestamp")
      ∷ problem_if (ltb_int r.thread_count (pos 1)) (out_of_range w "thread_count")
      ∷ problem_if (ltb_int r.trial (pos 0)) (out_of_range w "trial")
      ∷ problem_if (not (is_finite r.value)) (out_of_range w "value")
      ∷ check_params lib w (some r.params)
      ∷ []

  pub check_result-to_json :
      (i : ℕ) (r : ResultRow D Json)
      → FitsResult r
      → check_result lib i (result_to_json lib r) ≡ flatten (result_problems i r)
  unfolding check_result result_to_json
  check_result-to_json i r (threads, trial, ws, duration) =
      let ms : List (String × Json) = result_members lib r in
      let w : Place = Place.result i in
      let named = metric_named r.metric in
      rw
        (
          lib.is_object-object ms,
          Fields.contains_at lib ms "schema_version" none refl refl,
          Fields.contains_at lib ms "run_id" none refl refl,
          Fields.contains_at lib ms "machine" none refl refl,
          Fields.require_string lib ms w "workload" (workload_to_string r.workload) refl refl,
          Fields.require_string lib ms w "metric" (metric_to_string r.metric) refl refl,
          Fields.require_string lib ms w "unit" (unit_to_string (unit_of r.metric)) refl refl,
          Fields.require_string lib ms w "timestamp" r.timestamp refl refl,
          Fields.require_double lib ms w "value" r.value refl refl,
          Fields.require_int lib ms w "thread_count" r.thread_count refl refl,
          Fields.require_unsigned lib ms w "working_set_bytes" r.working_set_bytes refl refl,
          Fields.require_int lib ms w "trial" r.trial refl refl,
          Fields.require_unsigned lib ms w "duration_ns" r.duration_ns refl refl,
          Fields.check_metric_at lib ms (metric_to_string r.metric) r.metric refl refl named w,
          Fields.check_name_at lib ms (metric_to_string r.metric) r.metric refl refl named
              parse_workload workload_eq workload_of w "workload" (workload_to_string r.workload)
              r.workload refl (workload_named r.workload),
          Fields.check_name_at lib ms (metric_to_string r.metric) r.metric refl refl named
              parse_unit unit_eq unit_of w "unit" (unit_to_string (unit_of r.metric))
              (unit_of r.metric) refl (unit_named r.metric),
          unit_eq_self (unit_of r.metric),
          Fields.check_string_at lib ms (λ s. is_timestamp (codes s)) w "timestamp" r.timestamp refl
              refl,
          Fields.check_int_at lib ms (λ z. ltb_int z (pos 1)) w "thread_count" r.thread_count refl
              refl threads,
          Fields.check_int_at lib ms (λ z. ltb_int z (pos 0)) w "trial" r.trial refl refl trial,
          Fields.check_double_at lib ms (λ x. not (is_finite x)) w "value" r.value refl refl,
          lib.find-object "params" ms refl,
        )
        refl

  -- What is left of the checks of a summary.
  abbrev pub summary_problems : ℕ → SummaryRow D → List (List Problem)
  summary_problems i s =
      let w = Place.summary i in
      problem_if (not (workload_eq s.workload (workload_of s.metric))) (mismatch w "workload")
      ∷ problem_if (ltb_int s.n (pos 1)) (out_of_range w "n")
      ∷ problem_if (less s.stddev zero_double) (out_of_range w "stddev")
      ∷ problem_if (less s.cov zero_double) (out_of_range w "cov")
      ∷ problem_if (less s.mad zero_double) (out_of_range w "mad")
      ∷ problem_if (less s.clock_call_ns_start zero_double) (out_of_range w "clock_call_ns_start")
      ∷ problem_if (less s.clock_call_ns_end zero_double) (out_of_range w "clock_call_ns_end")
      ∷ (if ltb_int s.late_trials (pos 0)
          then out_of_range w "late_trials" ∷ []
          else problem_if (ltb_int s.n s.late_trials) (wrong_order w "late_trials" "n"))
      ∷ problem_if (ltb_int s.canary_attempts (pos 1)) (out_of_range w "canary_attempts")
      ∷ problem_if (less s.max s.min) (wrong_order w "min" "max")
      ∷ problem_if (less s.median s.min) (wrong_order w "min" "median")
      ∷ problem_if (less s.max s.median) (wrong_order w "median" "max")
      ∷ problem_if (less s.p95 s.p5) (wrong_order w "p5" "p95")
      ∷ []

  pub check_summary-to_json :
      (i : ℕ) (s : SummaryRow D)
      → FitsSummary s
      → check_summary lib i (summary_to_json lib s) ≡ flatten (summary_problems i s)
  unfolding check_summary summary_to_json
  check_summary-to_json i s (threads, n, late, attempts, ws) =
      let ms : List (String × Json) = summary_members lib s in
      let w : Place = Place.summary i in
      let named = metric_named s.metric in
      let negative : D → Bool = λ x. less x zero_double in
      rw
        (
          lib.is_object-object ms,
          Fields.require_string lib ms w "workload" (workload_to_string s.workload) refl refl,
          Fields.require_string lib ms w "metric" (metric_to_string s.metric) refl refl,
          Fields.require_int lib ms w "thread_count" s.thread_count refl refl,
          Fields.require_unsigned lib ms w "working_set_bytes" s.working_set_bytes refl refl,
          Fields.require_int lib ms w "n" s.n refl refl,
          Fields.require_double lib ms w "mean" s.mean refl refl,
          Fields.require_double lib ms w "median" s.median refl refl,
          Fields.require_double lib ms w "stddev" s.stddev refl refl,
          Fields.require_double lib ms w "cov" s.cov refl refl,
          Fields.require_double lib ms w "min" s.min refl refl,
          Fields.require_double lib ms w "p5" s.p5 refl refl,
          Fields.require_double lib ms w "p95" s.p95 refl refl,
          Fields.require_double lib ms w "max" s.max refl refl,
          Fields.check_metric_at lib ms (metric_to_string s.metric) s.metric refl refl named w,
          Fields.check_name_at lib ms (metric_to_string s.metric) s.metric refl refl named
              parse_workload workload_eq workload_of w "workload" (workload_to_string s.workload)
              s.workload refl (workload_named s.workload),
          Fields.check_int_at lib ms (λ z. ltb_int z (pos 1)) w "n" s.n refl refl n,
          Fields.check_double_at lib ms negative w "stddev" s.stddev refl refl,
          Fields.check_double_at lib ms negative w "cov" s.cov refl refl,
          Fields.check_double_at lib ms negative w "mad" s.mad refl refl,
          Fields.check_double_at lib ms negative w "clock_call_ns_start" s.clock_call_ns_start refl
              refl,
          Fields.check_double_at lib ms negative w "clock_call_ns_end" s.clock_call_ns_end refl
              refl,
          Fields.check_late_at lib ms w s.late_trials s.n refl refl refl late n,
          Fields.check_int_at lib ms (λ z. ltb_int z (pos 1)) w "canary_attempts" s.canary_attempts
              refl refl attempts,
          Fields.check_order_at lib ms w "min" "max" s.min s.max refl refl refl,
          Fields.check_order_at lib ms w "min" "median" s.min s.median refl refl refl,
          Fields.check_order_at lib ms w "median" "max" s.median s.max refl refl refl,
          Fields.check_order_at lib ms w "p5" "p95" s.p5 s.p95 refl refl refl,
        )
        refl
