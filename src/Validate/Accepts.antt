-- ===== src/Validate/Accepts.antt =====
-- `validate_run` on the reports that the engine writes: it lets the good ones pass, and no other.
use benchmark_platform.Prelude.{
  ℕ, suc, ◌≡◌, ◌↔◌, refl, sym, ap, ◌∙◌, String, true, not, some, List, [], ◌∷◌, map, All,
  append-nil, ==_iff, flatten,
}
use benchmark_platform.Prelude.Int.{ℤ, pos, negsuc}
use benchmark_platform.Prelude.Json.{JsonLib, IsInt, lookup, distinct}
use benchmark_platform.Prelude.Text.{codes}
use benchmark_platform.Results.{
  RunEnvelope, run_members, result_to_json, summary_to_json, run_to_json,
}
use benchmark_platform.Results.Members.{FitsResult, FitsSummary}
use benchmark_platform.Validate.Patterns.{is_uuid, is_timestamp, is_machine_id}
use benchmark_platform.Validate.{
  Place, Problem, problem_if, malformed, out_of_range, check_result, check_summary, check_from,
  check_schema, check_moment, check_part, check_results, check_summaries, validate_run, is_one,
}
use benchmark_platform.Validate.Fields
use benchmark_platform.Validate.Rows.{
  check_machine-to_json, check_result-to_json, check_summary-to_json,
}
use benchmark_platform.Validate.Good.{
  flatten_nil, ok_if, if_ok, iff_along, IsGoodMachine, IsGoodResult, IsGoodSummary,
  result_problems_iff, summary_problems_iff,
}

module _ {D : Type 0} (lib : JsonLib D) where
  open lib use {Json, object, array, string, integer}

  -- The loop over the elements, each of which is good or leaves a problem.
  check_from-map :
      {A : Type 0} (check : ℕ → Json → List Problem) (write : A → Json) (Fits Good : A → Type 0)
      → ((i : ℕ) (x : A) → Fits x → (check i (write x) ≡ []) ↔ Good x)
      → (xs : List A) (i : ℕ) → All Fits xs
      → (check_from lib check i (map write xs) ≡ []) ↔ All Good xs
  unfolding check_from
  check_from-map check write Fits Good each [] i h = (λ e. tt, λ g. refl)
  check_from-map check write Fits Good each (x ∷ xs) i h =
      let both =
        Fields.append_eq_nil (check i (write x)) (check_from lib check (suc i) (map write xs)) in
      let here = each i x h.0 in
      let rest = check_from-map check write Fits Good each xs (suc i) h.1 in
      (λ e. (here.0 ((both.0 e).0), rest.0 ((both.0 e).1)), λ g. both.1 (here.1 g.0, rest.1 g.1))

  abbrev pub IsGood : RunEnvelope D Json → Type 0
  IsGood run =
      (run.schema_version ≡ pos 1)
      × (is_uuid (codes run.run_id) ≡ true)
      × (is_timestamp (codes run.started_at) ≡ true)
      × (is_timestamp (codes run.finished_at) ≡ true)
      × IsGoodMachine lib run.machine
      × All (IsGoodResult lib) run.results
      × All (IsGoodSummary lib) run.summary

  abbrev run_problems : RunEnvelope D Json → List (List Problem)
  run_problems run =
      problem_if (not (is_one run.schema_version)) (out_of_range Place.run "schema_version")
      ∷ problem_if (not (is_uuid (codes run.run_id))) (malformed Place.run "run_id")
      ∷ problem_if (not (is_timestamp (codes run.started_at))) (malformed Place.run "started_at")
      ∷ problem_if (not (is_timestamp (codes run.finished_at))) (malformed Place.run "finished_at")
      ∷ problem_if (not (is_machine_id (codes run.machine.id))) (malformed Place.machine "id")
      ∷ check_from lib (check_result lib) 0 (map (result_to_json lib) run.results)
      ∷ check_from lib (check_summary lib) 0 (map (summary_to_json lib) run.summary)
      ∷ []

  check_moment_at :
      (m : List (String × Json)) (key s : String)
      → distinct m ≡ true
      → lookup key m ≡ some (string s)
      → check_moment lib (object m) key
        ≡ problem_if (not (is_timestamp (codes s))) (malformed Place.run key)
  unfolding check_moment
  check_moment_at m key s d l =
      rw
        (
          Fields.require_string lib m Place.run key s d l,
          Fields.check_string_at lib m (λ t. is_timestamp (codes t)) Place.run key s d l,
        )
        refl

  validate_run-problems :
      (run : RunEnvelope D Json)
      → IsInt run.schema_version
      → validate_run lib (run_to_json lib run) ≡ flatten (run_problems run)
  unfolding validate_run run_to_json check_schema check_part check_results check_summaries
  validate_run-problems run fits =
      let ms : List (String × Json) = run_members lib run in
      let version =
        Fields.field_at lib ms lib.is_number_integer lib.get_int "schema_version"
          (integer run.schema_version) refl refl (lib.is_number_integer-integer run.schema_version)
        ∙ lib.get_int-integer run.schema_version fits in
      rw
        (
          lib.is_object-object ms,
          Fields.require_int lib ms Place.run "schema_version" run.schema_version refl refl,
          check_schema,
          version,
          Fields.require_string lib ms Place.run "run_id" run.run_id refl refl,
          Fields.check_string_at lib ms (λ s. is_uuid (codes s)) Place.run "run_id" run.run_id refl
              refl,
          check_moment_at ms "started_at" run.started_at refl refl,
          check_moment_at ms "finished_at" run.finished_at refl refl,
          Fields.require_array lib ms Place.run "argv" (map string run.argv) refl refl,
          Fields.require_array lib ms Place.run "results" (map (result_to_json lib) run.results)
              refl refl,
          lib.find-object "machine" ms refl,
          lib.find-object "results" ms refl,
          lib.find-object "summary" ms refl,
          check_machine-to_json lib run.machine,
          append-nil (
              problem_if (not (is_machine_id (codes run.machine.id)))
                (malformed Place.machine "id")),
          lib.is_array-array (map (result_to_json lib) run.results),
          lib.is_array-array (map (summary_to_json lib) run.summary),
          lib.elements-array (map (result_to_json lib) run.results),
          lib.elements-array (map (summary_to_json lib) run.summary),
        )
        refl

  is_one_iff : (z : ℤ) → (is_one z ≡ true) ↔ (z ≡ pos 1)
  unfolding is_one
  is_one_iff (pos n) = (λ e. ap pos ((==_iff n 1).0 e), λ e. ap is_one e)
  is_one_iff (negsuc n) = (λ e. absurd (cc), λ e. ap is_one e)

  -- For a report that the engine writes, with numbers that fit their types, validate_run finds no
  -- problem exactly if the schema version is 1, the run and the machine have well-formed ids, the
  -- times are well-formed, each result and summary has the workload of its metric, the thread
  -- counts of the results and the numbers of trials are at least 1 and the trial numbers not
  -- negative, the values are finite, the parameters cold and huge_pages are of the right kind
  -- where they are given, the spreads and clock times are not negative, the late trials are
  -- between 0 and the number of trials, the canary attempts are at least 1, and the minimum, the
  -- median, the maximum and the percentiles are not in the wrong order.
  pub validate_run_iff :
      (run : RunEnvelope D Json)
      → IsInt run.schema_version
      → All FitsResult run.results
      → All FitsSummary run.summary
      → (validate_run lib (run_to_json lib run) ≡ []) ↔ IsGood run
  validate_run_iff run version results summary =
      let whole = validate_run-problems run version in
      let rows =
        check_from-map (check_result lib) (result_to_json lib) FitsResult (IsGoodResult lib)
          (λ i r fits. iff_along (check_result-to_json lib i r fits) (result_problems_iff lib i r))
          run.results 0 results in
      let lines =
        check_from-map (check_summary lib) (summary_to_json lib) FitsSummary (IsGoodSummary lib)
          (λ i s fits.
            iff_along (check_summary-to_json lib i s fits) (summary_problems_iff lib i s))
          run.summary 0 summary in
      (
        λ e.
            let h = (flatten_nil (run_problems run)).0 (sym whole ∙ e) in
            (
              (is_one_iff run.schema_version).0 (if_ok _ _ h.0),
              if_ok _ _ h.1.0,
              if_ok _ _ h.1.1.0,
              if_ok _ _ h.1.1.1.0,
              if_ok _ _ h.1.1.1.1.0,
              rows.0 h.1.1.1.1.1.0,
              lines.0 h.1.1.1.1.1.1.0,
            ),
        λ g.
            whole
            ∙ (flatten_nil (run_problems run)).1 (
              ok_if _ _ ((is_one_iff run.schema_version).1 g.0),
              (
                ok_if _ _ g.1,
                (ok_if _ _ g.2, (ok_if _ _ g.3, (ok_if _ _ g.4, (rows.1 g.5, (lines.1 g.6, tt))))),
              ),
            ),
      )
