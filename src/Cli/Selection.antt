-- ===== src/Cli/Selection.antt =====
-- engine/src/main.cpp: the callback of `bench run`, up to the signal handler: which workloads and
-- metrics a run is for, and with which threads, sizes and CPUs. The options are what CLI11 has read into the variables; the texts of the
-- errors and the notes on stderr are left out.
pub mod Reads
use benchmark_platform.Prelude.{
  ℕ, Bool, true, false, not, ◌&&◌, ◌||◌, Option, none, some, List, [], ◌∷◌, ◌++◌, if◌then◌else◌,
}
use benchmark_platform.Prelude.Decimal.{stoi}
use benchmark_platform.Prelude.Int.{ℤ}
use benchmark_platform.Prelude.Result.{Result, ok, err, ◌>>=◌, ◌>>◌}
use benchmark_platform.Prelude.Text.{text_of}
use benchmark_platform.Metric.{Workload, Metric, workload_of}
use benchmark_platform.Metric.Names.{parse_workload, parse_metric}
use benchmark_platform.Metric.Tables.{
  WorkloadDesc, workload_registry, workload_eq, metric_eq, is_implemented, is_rider, metrics_of,
}
use benchmark_platform.Cli.{parse_size, split_csv}

-- `trial_ms_given` is `trial_ms_opt->count() != 0`.
pub record Options : Type 0 where
  pub workloads_csv : List ℕ
  pub metrics_csv : List ℕ
  pub all : Bool
  pub allow_writes : Bool
  pub write_budget : List ℕ
  pub trial_ms : ℕ
  pub trial_ms_given : Bool
  pub threads_csv : List ℕ
  pub working_sets_csv : List ℕ
  pub cpus_csv : List ℕ
  pub pin : Bool

pub data BadOption : Type 0 where
  unknown_workload workload_planned unknown_metric metric_planned selects_rider : BadOption
  nothing_selected bad_size metric_writes workload_writes bad_number cpus_unpinned : BadOption

-- The members of `RunConfig` that are set here.
pub record Selection : Type 0 where
  pub workloads : List Workload
  pub metrics : List Metric
  pub write_budget_bytes : ℕ
  pub trial_ms : ℕ
  pub thread_counts : List ℤ
  pub working_sets : List ℕ
  pub cpus : List ℤ

-- The loop for `--all`.
implemented_kinds : List WorkloadDesc → List Workload
implemented_kinds [] = []
implemented_kinds (d ∷ ds) =
    let rest = implemented_kinds ds in if d.implemented then d.kind ∷ rest else rest

unfoldable pub pick_workload : List ℕ → Result BadOption Workload
pick_workload name = elim (parse_workload (text_of name)) [
  | none ↦ err BadOption.unknown_workload
  | some w ↦ if is_implemented w then ok w else err BadOption.workload_planned
]

unfoldable pub pick_metric : List ℕ → Result BadOption Metric
pick_metric name = elim (parse_metric (text_of name)) [
  | none ↦ err BadOption.unknown_metric
  | some m ↦
      if not (is_implemented (workload_of m))
      then err BadOption.metric_planned
      else if is_rider m
      then err BadOption.selects_rider
      else ok m
]

-- A loop over the parts of an option, which throws at the first that is refused.
unfoldable pub read_all :
    {A : Type 0} → (List ℕ → Result BadOption A) → List (List ℕ) → Result BadOption (List A)
read_all read [] = ok []
read_all read (name ∷ names) = do a ← read name; more ← read_all read names; ok (a ∷ more)

abbrev pub is_empty {ℓ} : {A : Type ℓ} → List A → Bool
is_empty [] = true
is_empty (x ∷ xs) = false

unfoldable pub is_disk_write : Metric → Bool
is_disk_write m = metric_eq m Metric.disk_seq_write_bw || metric_eq m Metric.disk_rand_write_iops

unfoldable pub any_write : List Metric → Bool
any_write [] = false
any_write (m ∷ ms) = is_disk_write m || any_write ms

-- `std::erase_if(cfg.metrics, is_disk_write)`
unfoldable pub without_writes : List Metric → List Metric
without_writes [] = []
without_writes (m ∷ ms) = let rest = without_writes ms in if is_disk_write m then rest else m ∷ rest

-- The loops over the metrics of the workloads: the one that throws, and the one that fills `keep`.
unfoldable pub any_workload_writes : List Workload → Bool
any_workload_writes [] = false
any_workload_writes (w ∷ ws) = any_write (metrics_of w) || any_workload_writes ws

unfoldable pub read_metrics : List Workload → List Metric
read_metrics [] = []
read_metrics (w ∷ ws) = without_writes (metrics_of w) ++ read_metrics ws

-- `if (!cfg.opts.allow_writes)`, and what it leaves.
unfoldable pub gate_writes :
    (allow_writes explicit : Bool)
    → List Workload
    → List Metric
    → Result BadOption (List Workload × List Metric)
gate_writes true explicit ws ms = ok (ws, ms)
gate_writes false explicit ws ms =
    if any_write ms && explicit
    then err BadOption.metric_writes
    else if any_workload_writes ws && explicit
    then err BadOption.workload_writes
    else if explicit
    then ok (ws, without_writes ms)
    else ok ([], read_metrics ws)

-- `std::stoi`, whose exceptions CLI11 does not catch, and `parse_size`.
unfoldable pub number_of : List ℕ → Result BadOption ℤ
number_of s = elim (stoi s) [ none ↦ err BadOption.bad_number | some z ↦ ok z ]

unfoldable pub size_of : List ℕ → Result BadOption ℕ
size_of s = elim (parse_size s) [ none ↦ err BadOption.bad_size | some b ↦ ok b ]

unfoldable pub some_selected : List Workload → List Metric → Result BadOption (Unit {0})
some_selected ws ms = if is_empty ws && is_empty ms then err BadOption.nothing_selected else ok tt

unfoldable pub some_pinned : Bool → List ℤ → Result BadOption (Unit {0})
some_pinned pin cpus = if not (is_empty cpus) && not pin then err BadOption.cpus_unpinned else ok tt

is_disk : Workload → Bool
is_disk w = workload_eq w Workload.disk_seq || workload_eq w Workload.disk_rand

any_disk_metric : List Metric → Bool
any_disk_metric [] = false
any_disk_metric (m ∷ ms) = is_disk (workload_of m) || any_disk_metric ms

any_disk_workload : List Workload → Bool
any_disk_workload [] = false
any_disk_workload (w ∷ ws) = is_disk w || any_disk_workload ws

-- Disk trials are longer, unless the length was given.
unfoldable pub trial_ms_for : Options → List Workload → List Metric → ℕ
unfolding any_disk_metric any_disk_workload is_disk
trial_ms_for o ws ms =
    if not o.trial_ms_given && (any_disk_metric ms || any_disk_workload ws) then 500 else o.trial_ms

-- What the names select, before the gate.
unfoldable pub chosen : Options → Result BadOption (List Workload × List Metric)
unfolding implemented_kinds
chosen o = do
  named ← read_all pick_workload (split_csv o.workloads_csv)
  metrics ← read_all pick_metric (split_csv o.metrics_csv)
  let workloads = (if o.all then implemented_kinds workload_registry else []) ++ named
  some_selected workloads metrics
  ok (workloads, metrics)

-- The numbers of threads, the working sets and the CPUs.
unfoldable pub numbers_of : Options → Result BadOption (List ℤ × List ℕ × List ℤ)
numbers_of o = do
  thread_counts ← read_all number_of (split_csv o.threads_csv)
  working_sets ← read_all size_of (split_csv o.working_sets_csv)
  cpus ← read_all number_of (split_csv o.cpus_csv)
  some_pinned o.pin cpus
  ok (thread_counts, working_sets, cpus)

abbrev pub is_explicit : Options → List Metric → Bool
is_explicit o metrics = not (is_empty metrics) || not (is_empty o.workloads_csv)

unfoldable pub select : Options → Result BadOption Selection
select o = do
  (workloads, metrics) ← chosen o
  budget ← size_of o.write_budget
  (ws, ms) ← gate_writes o.allow_writes (is_explicit o metrics) workloads metrics
  (thread_counts, working_sets, cpus) ← numbers_of o
  ok (record {
    workloads = ws;
    metrics = ms;
    write_budget_bytes = budget;
    trial_ms = trial_ms_for o ws ms;
    thread_counts = thread_counts;
    working_sets = working_sets;
    cpus = cpus;
  })
