-- ===== src/Cli/Selection/Reads.antt =====
-- Without `--allow-writes`: the run has the metrics that it would have otherwise, but for those that
-- write.
use benchmark_platform.Prelude.{
  ℕ, Bool, true, false, ◌||◌, List, [], ◌∷◌, ◌++◌, ◌≡◌, refl, sym, ap, ap₂, ◌∙◌, arith, inl, inr,
  ◌⊎◌, Bool-cases,
}
use benchmark_platform.Prelude.Int.{ℤ}
use benchmark_platform.Prelude.Result.{ok, chain_parts, ok-injective}
use benchmark_platform.Metric.{Workload, Metric}
use benchmark_platform.Metric.Tables.{metrics_of}
use benchmark_platform.Plan.Specs.{metrics_of_all, metrics_to_run}
use benchmark_platform.Cli.Selection.{
  Options, Selection, any_write, without_writes, any_workload_writes, read_metrics, gate_writes,
  size_of, is_explicit, chosen, numbers_of, select, trial_ms_for,
}

any_write-without_writes : (ms : List Metric) → any_write (without_writes ms) ≡ false
unfolding any_write without_writes
any_write-without_writes [] = refl
any_write-without_writes (m ∷ ms) = ground (arith, any_write-without_writes ms)

without_writes_self : (ms : List Metric) → any_write ms ≡ false → without_writes ms ≡ ms
unfolding any_write without_writes
without_writes_self [] h = refl
without_writes_self (m ∷ ms) h = ground (arith, without_writes_self ms)

without_writes-append :
    (xs ys : List Metric) → without_writes (xs ++ ys) ≡ without_writes xs ++ without_writes ys
unfolding without_writes
without_writes-append [] ys = refl
without_writes-append (m ∷ xs) ys = ground (arith, without_writes-append xs ys)

any_write-append : (xs ys : List Metric) → any_write (xs ++ ys) ≡ any_write xs || any_write ys
unfolding any_write
any_write-append [] ys = refl
any_write-append (m ∷ xs) ys = ground (arith, any_write-append xs ys)

any_workload_writes_lem :
    (ws : List Workload) → any_workload_writes ws ≡ any_write (metrics_of_all ws)
unfolding any_workload_writes metrics_of_all any_write
any_workload_writes_lem [] = refl
any_workload_writes_lem (w ∷ ws) =
    ap (λ b. any_write (metrics_of w) || b) (any_workload_writes_lem ws)
    ∙ sym (any_write-append (metrics_of w) (metrics_of_all ws))

read_metrics_lem : (ws : List Workload) → read_metrics ws ≡ without_writes (metrics_of_all ws)
unfolding read_metrics metrics_of_all without_writes
read_metrics_lem [] = refl
read_metrics_lem (w ∷ ws) =
    ap (λ l. without_writes (metrics_of w) ++ l) (read_metrics_lem ws)
    ∙ sym (without_writes-append (metrics_of w) (metrics_of_all ws))

metrics_to_run_self : (ms : List Metric) → metrics_to_run ms [] ≡ ms
unfolding metrics_to_run metrics_of_all
metrics_to_run_self [] = refl
metrics_to_run_self (m ∷ ms) = refl

metrics_to_run-reads :
    (ws : List Workload) (ms : List Metric)
    → any_write ms ≡ false
    → any_workload_writes ws ≡ false
    → metrics_to_run ms ws ≡ without_writes (metrics_to_run ms ws)
unfolding metrics_to_run
metrics_to_run-reads ws [] e f =
    sym (without_writes_self (metrics_of_all ws) (sym (any_workload_writes_lem ws) ∙ f))
metrics_to_run-reads ws (m ∷ ms) e f = sym (without_writes_self (m ∷ ms) e)

named_reads :
    (ws ws' : List Workload) (ms ms' : List Metric)
    → gate_writes false true ws ms ≡ ok (ws', ms')
    → metrics_to_run ms' ws' ≡ without_writes (metrics_to_run ms ws)
unfolding gate_writes
named_reads ws ws' ms ms' e = elim (Bool-cases (any_write ms)) [
  | inl w ↦ absurd (ground arith)
  | inr r ↦ elim (Bool-cases (any_workload_writes ws)) [
    | inl w ↦ absurd (ground arith)
    | inr f ↦
        let q : ws' ≡ ws = ground arith in
        let p : ms' ≡ ms = ground (arith, without_writes_self ms r) in
        ap₂ metrics_to_run p q ∙ metrics_to_run-reads ws ms r f
  ]
]

all_reads :
    (ws ws' : List Workload) (ms ms' : List Metric)
    → ms ≡ []
    → gate_writes false false ws ms ≡ ok (ws', ms')
    → metrics_to_run ms' ws' ≡ without_writes (metrics_to_run ms ws)
unfolding gate_writes metrics_to_run
all_reads ws ws' ms ms' h e =
    let q : ws' ≡ [] = ground arith in
    let p : ms' ≡ read_metrics ws = ground arith in
    ap₂ metrics_to_run p q
    ∙ metrics_to_run_self (read_metrics ws)
    ∙ read_metrics_lem ws
    ∙ ap (λ l. without_writes (metrics_to_run l ws)) (sym h)

-- A run for which nothing was named has no metrics of its own.
gate_writes-reads :
    (explicit : Bool) (ws ws' : List Workload) (ms ms' : List Metric)
    → (explicit ≡ true) ⊎ (ms ≡ [])
    → gate_writes false explicit ws ms ≡ ok (ws', ms')
    → metrics_to_run ms' ws' ≡ without_writes (metrics_to_run ms ws)
unfolding gate_writes
gate_writes-reads explicit ws ws' ms ms' h e = elim (Bool-cases explicit) [
  | inl named ↦ named_reads ws ws' ms ms' (ap (λ b. gate_writes false b ws ms) (sym named) ∙ e)
  | inr unnamed ↦
      all_reads ws ws' ms ms' (elim h [ inl named ↦ absurd (cc) | inr none_named ↦ none_named ])
        (ap (λ b. gate_writes false b ws ms) (sym unnamed) ∙ e)
]

abbrev allowed : Options → Options
allowed o = record o { allow_writes = true }

chosen-allowed : (o : Options) → chosen (allowed o) ≡ chosen o
unfolding chosen
chosen-allowed o = refl

numbers_of-allowed : (o : Options) → numbers_of (allowed o) ≡ numbers_of o
unfolding numbers_of
numbers_of-allowed o = refl

module _ (o : Options) (ws : List Workload) (ms : List Metric) (budget : ℕ)
    (numbers : List ℤ × List ℕ × List ℤ) where
  -- What a run is made of behind the gate.
  abbrev made : List Workload → List Metric → Selection
  made ws' ms' = record {
    workloads = ws';
    metrics = ms';
    write_budget_bytes = budget;
    trial_ms = trial_ms_for o ws' ms';
    thread_counts = numbers.0;
    working_sets = numbers.1;
    cpus = numbers.2;
  }

  select-allowed :
      chosen o ≡ ok (ws, ms)
      → size_of o.write_budget ≡ ok budget
      → numbers_of o ≡ ok numbers
      → (s' : Selection) × (select (allowed o) ≡ ok s') × (s'.metrics ≡ ms) × (s'.workloads ≡ ws)
  unfolding select gate_writes
  select-allowed c b n = (
    record (made ws ms) { trial_ms = trial_ms_for (allowed o) ws ms },
    rw (chosen-allowed o, c, b, numbers_of-allowed o, n) refl,
    refl,
    refl,
  )

is_explicit_or_none : (o : Options) (ms : List Metric) → (is_explicit o ms ≡ true) ⊎ (ms ≡ [])
is_explicit_or_none o [] = inr refl
is_explicit_or_none o (m ∷ ms) = inl refl

-- What bench run accepts without --allow-writes it also accepts with it; the metrics of the run
-- are then those that it would have with the flag, in the same order, without the disk write
-- metrics, none of which is left.
pub select-reads :
    (o : Options) (s : Selection)
    → o.allow_writes ≡ false
    → select o ≡ ok s
    → (s' : Selection) × (select (allowed o) ≡ ok s')
      × (metrics_to_run s.metrics s.workloads
          ≡ without_writes (metrics_to_run s'.metrics s'.workloads))
      × (any_write (metrics_to_run s.metrics s.workloads) ≡ false)
unfolding select
select-reads o s off e =
    let (chose, c, e1) = chain_parts (chosen o) _ e in
    let (budget, b, e2) = chain_parts (size_of o.write_budget) _ e1 in
    let (gated, g, e3) =
      chain_parts (gate_writes o.allow_writes (is_explicit o chose.1) chose.0 chose.1) _ e2 in
    let (numbers, n, e4) = chain_parts (numbers_of o) _ e3 in
    let (s', taken, m, w) = select-allowed o chose.0 chose.1 budget numbers c b n in
    let shut : gate_writes false (is_explicit o chose.1) chose.0 chose.1 ≡ ok gated =
      ap (λ a. gate_writes a (is_explicit o chose.1) chose.0 chose.1) (sym off) ∙ g in
    let reads : metrics_to_run gated.1 gated.0 ≡ without_writes (metrics_to_run chose.1 chose.0) =
      gate_writes-reads _ chose.0 gated.0 chose.1 gated.1 (is_explicit_or_none o chose.1) shut in
    let mine : metrics_to_run s.metrics s.workloads ≡ metrics_to_run gated.1 gated.0 =
      ap (λ k. metrics_to_run k.metrics k.workloads) (sym (ok-injective e4)) in
    let run : metrics_to_run s.metrics s.workloads
        ≡ without_writes (metrics_to_run s'.metrics s'.workloads) =
      mine ∙ reads ∙ ap without_writes (ap₂ metrics_to_run (sym m) (sym w)) in
    (
      s',
      taken,
      run,
      ap any_write run ∙ any_write-without_writes (metrics_to_run s'.metrics s'.workloads),
    )
