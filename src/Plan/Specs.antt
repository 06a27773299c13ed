-- ===== src/Plan/Specs.antt =====
-- engine/src/runner.cpp: the start of `run_benchmarks`, where the arguments are checked and every
-- configuration of the run is laid out. The two tests of `max_seconds`, a double, are fields.
use benchmark_platform.Prelude.{
  ℕ, ◌≡◌, Bool, true, false, not, ◌||◌, Option, none, some, List, [], ◌∷◌, ◌++◌, map, ltb, ◌≤◌, ◌⊎◌,
  if◌then◌else◌, All,
}
use benchmark_platform.Prelude.Int.{ℤ, pos, negsuc}
use benchmark_platform.Metric.{Workload, Metric, workload_of}
use benchmark_platform.Metric.Tables.{is_implemented, group_of, metrics_of}
use benchmark_platform.Plan.{effective_working_set}
use benchmark_platform.Session.{ConfigSpec}

pub record Args : Type 0 where
  pub trials : ℤ
  pub warmup_trials : ℤ
  pub warmup_ms : ℤ
  pub trial_ms : ℤ
  pub max_seconds_negative : Bool
  pub max_seconds_finite : Bool
  pub thread_counts : List ℤ
  pub cpus : List ℤ

pub data BadArg : Type 0 where
  bad_trials bad_warmup_trials bad_warmup_ms bad_trial_ms bad_max_seconds bad_thread_count bad_cpu :
      BadArg

unfoldable pub below_zero : ℤ → Bool
below_zero (pos n) = false
below_zero (negsuc n) = true

unfoldable pub below_one : ℤ → Bool
below_one (pos n) = ltb n 1
below_one (negsuc n) = true

unfoldable pub any_of : (ℤ → Bool) → List ℤ → Bool
any_of bad [] = false
any_of bad (z ∷ zs) = bad z || any_of bad zs

-- The first `throw` that is reached; `none` where there is none.
unfoldable pub check_args : Args → Option BadArg
check_args a =
    if below_one a.trials
    then some BadArg.bad_trials
    else if below_zero a.warmup_trials
    then some BadArg.bad_warmup_trials
    else if below_zero a.warmup_ms
    then some BadArg.bad_warmup_ms
    else if below_one a.trial_ms
    then some BadArg.bad_trial_ms
    else if a.max_seconds_negative || not a.max_seconds_finite
    then some BadArg.bad_max_seconds
    else if any_of below_one a.thread_counts
    then some BadArg.bad_thread_count
    else if any_of below_zero a.cpus
    then some BadArg.bad_cpu
    else none

-- An explicit list of metrics wins over the workloads.
unfoldable pub metrics_of_all : List Workload → List Metric
metrics_of_all [] = []
metrics_of_all (w ∷ ws) = metrics_of w ++ metrics_of_all ws

unfoldable pub metrics_to_run : List Metric → List Workload → List Metric
metrics_to_run [] workloads = metrics_of_all workloads
metrics_to_run (m ∷ ms) workloads = m ∷ ms

-- The two inner loops, for one metric.
unfoldable pub specs_of_metric : Metric → List ℕ → List ℕ → List ConfigSpec
specs_of_metric m [] working_sets = []
specs_of_metric m (threads ∷ more) working_sets =
    map
      (λ ws. record {
        kind = workload_of m;
        metrics = group_of m;
        threads = threads;
        working_set = effective_working_set (workload_of m) ws;
      })
      working_sets
    ++ specs_of_metric m more working_sets

-- The loop over the metrics; `none` is the exception for a workload that is not implemented.
unfoldable pub specs_of : List Metric → List ℕ → List ℕ → Option (List ConfigSpec)
specs_of [] thread_counts working_sets = some []
specs_of (m ∷ ms) thread_counts working_sets = elim (is_implemented (workload_of m)) [
  | false ↦ none
  | true ↦ elim (specs_of ms thread_counts working_sets) [
    | none ↦ none
    | some more ↦ some (specs_of_metric m thread_counts working_sets ++ more)
  ]
]

-- A number of the source that is at least so much.
abbrev pub AtLeast : (least : ℕ) → ℤ → Type 0
AtLeast least (pos n) = least ≤ n
AtLeast least (negsuc n) = ⊥

-- The arguments that make sense for a run.
pub record Accepts (a : Args) : Type 0 where
  pub trials : AtLeast 1 a.trials
  pub warmup_trials : AtLeast 0 a.warmup_trials
  pub warmup_ms : AtLeast 0 a.warmup_ms
  pub trial_ms : AtLeast 1 a.trial_ms
  pub finite : a.max_seconds_finite ≡ true
  pub not_negative : a.max_seconds_negative ≡ false
  pub thread_counts : All (AtLeast 1) a.thread_counts
  pub cpus : All (AtLeast 0) a.cpus

-- What an exception says of the arguments.
abbrev pub Violates : Args → BadArg → Type 0
Violates a BadArg.bad_trials = ¬ AtLeast 1 a.trials
Violates a BadArg.bad_warmup_trials = ¬ AtLeast 0 a.warmup_trials
Violates a BadArg.bad_warmup_ms = ¬ AtLeast 0 a.warmup_ms
Violates a BadArg.bad_trial_ms = ¬ AtLeast 1 a.trial_ms
Violates a BadArg.bad_max_seconds = (a.max_seconds_negative ≡ true) ⊎ (a.max_seconds_finite ≡ false)
Violates a BadArg.bad_thread_count = ¬ All (AtLeast 1) a.thread_counts
Violates a BadArg.bad_cpu = ¬ All (AtLeast 0) a.cpus

-- What the checks find: that the arguments make sense, or one that does not.
abbrev pub Verdict : Args → Option BadArg → Type 0
Verdict a none = Accepts a
Verdict a (some bad) = Violates a bad
