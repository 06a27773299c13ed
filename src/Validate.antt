-- ===== src/Validate.antt =====
-- engine/src/validate.cpp: the structural checks of a report. A problem is a value in place of its
-- text; the lists of problems are put together in the order of the source. The regular expressions
-- are in the child Patterns.
pub mod Patterns
pub mod Fields
pub mod Accepts
pub mod Good
pub mod Rows
use text.Mathlib.Text.{◌==◌ as str_eq}
use benchmark_platform.Prelude.{
  ℕ, zero, suc, String, Bool, true, false, not, ◌&&◌, ◌||◌, Option, none, some, List, [], ◌∷◌, ◌++◌,
  map, ltb, ◌==◌, if◌then◌else◌, flatten,
}
use benchmark_platform.Prelude.Int.{ℤ, pos, negsuc, ltb_int}
use benchmark_platform.Prelude.Json.{JsonLib}
use benchmark_platform.Prelude.Text.{codes}
use benchmark_platform.Metric.{Workload, Metric, MetricUnit, workload_of, unit_of}
use benchmark_platform.Metric.Names.{parse_workload, parse_metric, parse_unit}
use benchmark_platform.Metric.Tables.{workload_eq}
use benchmark_platform.Results.Read.{unit_eq}
use benchmark_platform.Validate.Patterns.{is_uuid, is_timestamp, is_machine_id}

pub data Place : Type 0 where
  run machine : Place
  result summary : (index : ℕ) → Place

pub data Problem : Type 0 where
  missing wrong_type forbidden unknown mismatch malformed out_of_range :
      Place → (key : String) → Problem
  not_object : Place → Problem
  wrong_order : Place → (below above : String) → Problem

unfoldable pub is_one : ℤ → Bool
is_one (pos n) = n == 1
is_one (negsuc n) = false

-- `if (cond) out.push_back(p)`
abbrev pub problem_if : Bool → Problem → List Problem
problem_if cond p = if cond then p ∷ [] else []

unfoldable pub is_cold_name : String → Bool
is_cold_name s = str_eq s "clflush" || str_eq s "evict" || str_eq s "none" || str_eq s "n/a"

module _ {D : Type 0} (lib : JsonLib D) where
  open lib use {
    Json, is_object, is_array, is_string, is_number_integer, is_number, is_boolean, find, elements,
    get_string, get_int, get_long, get_double, is_finite, less, zero_double,
  }

  unfoldable pub require : (Json → Bool) → Place → Json → String → List Problem
  require pred w j key = elim (find key j) [
    | none ↦ missing w key ∷ []
    | some v ↦ problem_if (not (pred v)) (wrong_type w key)
  ]

  -- `contains(key)`, with a value of the kind that is asked for.
  unfoldable pub field_of :
      {T : Type 0} → (Json → Bool) → (Json → Option T) → String → Json → Option T
  field_of pred get key j = elim (find key j) [
    | none ↦ none
    | some v ↦ if pred v then get v else none
  ]

  abbrev pub string_of : String → Json → Option String
  string_of = field_of is_string get_string

  abbrev pub int_of : String → Json → Option ℤ
  int_of = field_of is_number_integer get_long

  abbrev pub double_of : String → Json → Option D
  double_of = field_of is_number get_double

  unfoldable pub contains : String → Json → Bool
  contains key j = elim (find key j) [ none ↦ false | some v ↦ true ]

  unfoldable pub check_string : (String → Bool) → Place → Json → String → List Problem
  check_string good w j key = elim (string_of key j) [
    | none ↦ []
    | some s ↦ problem_if (not (good s)) (malformed w key)
  ]

  unfoldable pub check_int : (ℤ → Bool) → Place → Json → String → List Problem
  check_int bad w j key = elim (int_of key j) [
    | none ↦ []
    | some z ↦ problem_if (bad z) (out_of_range w key)
  ]

  unfoldable pub check_double : (D → Bool) → Place → Json → String → List Problem
  check_double bad w j key = elim (double_of key j) [
    | none ↦ []
    | some x ↦ problem_if (bad x) (out_of_range w key)
  ]

  unfoldable pub check_machine : Json → List Problem
  check_machine m =
      if not (is_object m)
      then not_object machine ∷ []
      else flatten (
          map (require is_string machine m) (
            "id" ∷ "hostname" ∷ "cpu_model" ∷ "os" ∷ "kernel" ∷ "compiler" ∷ "compiler_flags"
            ∷ "engine_version" ∷ "engine_git_sha" ∷ [])
          ++ map (require is_number_integer machine m) (
              "physical_cores" ∷ "logical_cpus" ∷ "l1d_kb" ∷ "l2_kb" ∷ "l3_kb" ∷ "memory_bytes"
              ∷ [])
          ++ check_string (λ s. is_machine_id (codes s)) machine m "id" ∷ [])

  unfoldable pub metric_of : Json → Option Metric
  metric_of j = elim (string_of "metric" j) [ none ↦ none | some s ↦ parse_metric s ]

  unfoldable pub check_metric : Place → Json → List Problem
  check_metric w j = elim (string_of "metric" j) [
    | none ↦ []
    | some s ↦ elim (parse_metric s) [ none ↦ unknown w "metric" ∷ [] | some m ↦ [] ]
  ]

  -- A name that has to be the one of the metric, where that is known.
  unfoldable pub check_name :
      {E : Type 0}
      → (String → Option E)
      → (E → E → Bool)
      → (Metric → E)
      → Place
      → Json
      → String
      → List Problem
  check_name parse same expected w j key = elim (string_of key j) [
    | none ↦ []
    | some s ↦ elim (parse s) [
      | none ↦ unknown w key ∷ []
      | some e ↦ elim (metric_of j) [
        | none ↦ []
        | some m ↦ problem_if (not (same e (expected m))) (mismatch w key)
      ]
    ]
  ]

  unfoldable pub check_cold : Place → Option Json → List Problem
  check_cold w none = []
  check_cold w (some v) =
      if not (is_string v) then wrong_type w "cold" ∷ [] else elim (get_string v) [
        | none ↦ []
        | some s ↦ problem_if (not (is_cold_name s)) (unknown w "cold")
      ]

  unfoldable pub check_huge_pages : Place → Option Json → List Problem
  check_huge_pages w none = []
  check_huge_pages w (some v) = problem_if (not (is_boolean v)) (wrong_type w "huge_pages")

  unfoldable pub check_params : Place → Option Json → List Problem
  check_params w none = []
  check_params w (some p) =
      if is_object p
      then check_cold w (find "cold" p) ++ check_huge_pages w (find "huge_pages" p)
      else []

  abbrev pub forbidden_in : Place → Json → String → List Problem
  forbidden_in w j key = problem_if (contains key j) (forbidden w key)

  unfoldable pub check_result : (index : ℕ) → Json → List Problem
  check_result i r =
      let w = result i in
      if not (is_object r)
      then not_object w ∷ []
      else flatten (
          map (forbidden_in w r) ("schema_version" ∷ "run_id" ∷ "machine" ∷ [])
          ++ map (require is_string w r) ("workload" ∷ "metric" ∷ "unit" ∷ "timestamp" ∷ [])
          ++ require is_number w r "value"
            ∷ map (require is_number_integer w r)
                ("thread_count" ∷ "working_set_bytes" ∷ "trial" ∷ "duration_ns" ∷ [])
          ++ check_metric w r
            ∷ check_name parse_workload workload_eq workload_of w r "workload"
            ∷ check_name parse_unit unit_eq unit_of w r "unit"
            ∷ check_string (λ s. is_timestamp (codes s)) w r "timestamp"
            ∷ check_int (λ z. ltb_int z (pos 1)) w r "thread_count"
            ∷ check_int (λ z. ltb_int z (pos 0)) w r "trial"
            ∷ check_double (λ x. not (is_finite x)) w r "value"
            ∷ check_params w (find "params" r)
            ∷ [])

  -- `late_trials`, and that it is at most `n`.
  unfoldable pub check_late : Place → Json → List Problem
  check_late w s = elim (int_of "late_trials" s) [
    | none ↦ []
    | some late ↦
        if ltb_int late (pos 0) then out_of_range w "late_trials" ∷ [] else elim (int_of "n" s) [
          | none ↦ []
          | some n ↦ problem_if (ltb_int n late) (wrong_order w "late_trials" "n")
        ]
  ]

  unfoldable pub num : Json → String → D
  num j key = elim (double_of key j) [ none ↦ zero_double | some x ↦ x ]

  unfoldable pub check_order : Place → Json → (below above : String) → List Problem
  check_order w s below above =
      problem_if (contains below s && contains above s && less (num s above) (num s below))
        (wrong_order w below above)

  unfoldable pub check_summary : (index : ℕ) → Json → List Problem
  check_summary i s =
      let w = summary i in
      if not (is_object s)
      then not_object w ∷ []
      else flatten (
          map (require is_string w s) ("workload" ∷ "metric" ∷ [])
          ++ map (require is_number_integer w s) ("thread_count" ∷ "working_set_bytes" ∷ "n" ∷ [])
          ++ map (require is_number w s)
              ("mean" ∷ "median" ∷ "stddev" ∷ "cov" ∷ "min" ∷ "p5" ∷ "p95" ∷ "max" ∷ [])
          ++ check_metric w s
            ∷ check_name parse_workload workload_eq workload_of w s "workload"
            ∷ check_int (λ z. ltb_int z (pos 1)) w s "n"
            ∷ map (check_double (λ x. less x zero_double) w s)
                ("stddev" ∷ "cov" ∷ "mad" ∷ "clock_call_ns_start" ∷ "clock_call_ns_end" ∷ [])
          ++ check_late w s
            ∷ check_int (λ z. ltb_int z (pos 1)) w s "canary_attempts"
            ∷ check_order w s "min" "max"
            ∷ check_order w s "min" "median"
            ∷ check_order w s "median" "max"
            ∷ check_order w s "p5" "p95"
            ∷ [])

  -- The loops over the elements.
  unfoldable pub check_from : (ℕ → Json → List Problem) → (index : ℕ) → List Json → List Problem
  check_from check i [] = []
  check_from check i (j ∷ js) = check i j ++ check_from check (suc i) js

  unfoldable pub check_schema : Json → List Problem
  check_schema j = elim (field_of is_number_integer get_int "schema_version" j) [
    | none ↦ []
    | some z ↦ problem_if (not (is_one z)) (out_of_range run "schema_version")
  ]

  unfoldable pub check_moment : Json → String → List Problem
  check_moment j key =
      require is_string run j key ++ check_string (λ s. is_timestamp (codes s)) run j key

  unfoldable pub check_part : Option Json → List Problem
  check_part none = missing run "machine" ∷ []
  check_part (some m) = check_machine m

  unfoldable pub check_results : Option Json → List Problem
  check_results none = []
  check_results (some v) = if is_array v then check_from check_result 0 (elements v) else []

  unfoldable pub check_summaries : Option Json → List Problem
  check_summaries none = []
  check_summaries (some v) =
      if is_array v then check_from check_summary 0 (elements v) else wrong_type run "summary" ∷ []

  unfoldable pub validate_run : Json → List Problem
  validate_run j =
      if not (is_object j)
      then not_object run ∷ []
      else flatten (
          require is_number_integer run j "schema_version"
          ∷ check_schema j
          ∷ require is_string run j "run_id"
          ∷ check_string (λ s. is_uuid (codes s)) run j "run_id"
          ∷ check_moment j "started_at"
          ∷ check_moment j "finished_at"
          ∷ require is_array run j "argv"
          ∷ require is_array run j "results"
          ∷ check_part (find "machine" j)
          ∷ check_results (find "results" j)
          ∷ check_summaries (find "summary" j)
          ∷ [])
