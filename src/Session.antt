-- ===== src/Session.antt =====
-- engine/src/runner.cpp: `ConfigSession`, one configuration that the coordinator steps trial by trial.
-- What the threads do between two barriers is one value, a `Trial`: the two time stamps of the
-- barriers and the slots that the workers have written. Times are whole nanoseconds of the clock.
-- A CPU number -1 is `none`. The texts of a result (time stamp, the workload's own description) are
-- left out, and of its parameters those that only repeat the configuration or convert to doubles.
pub mod Report
pub mod Timed
pub mod Refines
use benchmark_platform.Prelude.{
  ℕ, zero, suc, ◌+◌, ◌-◌, ◌*◌, ◌^◌, min, max, Bool, true, false, not, ◌&&◌, ◌||◌, Option, none,
  some, List, [], ◌∷◌, ◌++◌, map, ◌==◌, ltb, if◌then◌else◌, length,
}
use benchmark_platform.Prelude.Double.{Double}
use benchmark_platform.Prelude.Int.{ℤ, pos, neg}
use benchmark_platform.Prelude.Words.{u64}
use benchmark_platform.Metric.{Workload, Metric, ValueRule, value_rule_of}
use benchmark_platform.Metric.Value.{value_from_units}
use benchmark_platform.Latencies as Latencies
use benchmark_platform.Latencies.{LatencySummary, merge_latencies}

-- `hist` and `hist_used` are the member `latency`.
pub record Slot : Type 0 where
  pub ops : ℕ
  pub cold_ns : ℕ
  pub pre_ns : ℕ
  pub start : ℕ
  pub cpu_start : Option ℕ
  pub cpu_end : Option ℕ
  pub assigned_cpu : Option ℕ
  pub pin_errno : ℕ
  pub latency : Latencies.Slot

pub record Trial : Type 0 where
  pub t_release : ℕ
  pub t_done : ℕ
  pub slots : List Slot

abbrev pub ns_between : ℕ → ℕ → ℕ
ns_between a b = u64 (b + 2 ^ 64 - a)

-- What the loop over the slots adds up.
pub record Sums : Type 0 where
  pub total_ops : ℕ
  pub cold_ns_sum : ℕ
  pub cold_ns_max : ℕ
  pub pre_ns_max : ℕ
  pub first_start : ℕ
  pub last_start : ℕ
  pub pin_violations : ℕ
  pub pin_failures : ℕ

ran_on : Option ℕ → ℕ → Bool
ran_on none cpu = false
ran_on (some c) cpu = c == cpu

unfoldable pub pin_failed : Slot → Bool
pin_failed s = elim s.assigned_cpu [ none ↦ false | some cpu ↦ not (s.pin_errno == 0) ]

unfoldable pub pin_violated : Slot → Bool
unfolding ran_on
pin_violated s = elim s.assigned_cpu [
  | none ↦ false
  | some cpu ↦ s.pin_errno == 0 && not (ran_on s.cpu_start cpu && ran_on s.cpu_end cpu)
]

pub add_slot : Slot → Sums → Sums
add_slot s sums = record {
  total_ops = u64 (sums.total_ops + s.ops);
  cold_ns_sum = u64 (sums.cold_ns_sum + s.cold_ns);
  cold_ns_max = max sums.cold_ns_max s.cold_ns;
  pre_ns_max = max sums.pre_ns_max s.pre_ns;
  first_start = min sums.first_start s.start;
  last_start = max sums.last_start s.start;
  pin_violations = (if pin_violated s then 1 else 0) + sums.pin_violations;
  pin_failures = (if pin_failed s then 1 else 0) + sums.pin_failures;
}

pub add_slots : List Slot → Sums → Sums
add_slots [] sums = sums
add_slots (s ∷ slots) sums = add_slots slots (add_slot s sums)

pub sums_at : ℕ → Sums
sums_at start = record {
  total_ops = 0;
  cold_ns_sum = 0;
  cold_ns_max = 0;
  pre_ns_max = 0;
  first_start = start;
  last_start = start;
  pin_violations = 0;
  pin_failures = 0;
}

-- A session has a slot for each of its threads, at least one.
unfoldable pub sum_slots : List Slot → Sums
sum_slots [] = sums_at 0
sum_slots (s ∷ slots) = add_slots (s ∷ slots) (sums_at s.start)

-- The members of `RunConfig` that a session reads.
pub record Config : Type 0 where
  pub trials : ℕ
  pub warmup_trials : ℕ
  pub warmup_ms : ℕ

pub record ConfigSpec : Type 0 where
  pub kind : Workload
  pub metrics : List Metric
  pub threads : ℕ
  pub working_set : ℕ

pub record Result (D : Type 0) : Type 0 where
  pub workload : Workload
  pub thread_count : ℕ
  pub working_set_bytes : ℕ
  pub metric : Metric
  pub value : D
  pub trial : ℤ
  pub duration_ns : ℕ
  pub warmups_run : ℕ
  pub sums : Sums
  pub late_start : Bool
  pub latency : LatencySummary

-- The state of a session. `progressed` has the calls of the progress callback.
pub record Session (D : Type 0) : Type 0 where
  pub warmups_done : ℕ
  pub timed_done : ℕ
  pub late_trials : ℕ
  pub active_ns : ℕ
  pub values : List (List D)
  pub results : List (Result D)
  pub progressed : List (Result D × Bool)

unfoldable pub new_session : {D : Type 0} → ConfigSpec → Session D
new_session spec = record {
  warmups_done = 0;
  timed_done = 0;
  late_trials = 0;
  active_ns = 0;
  values = map (λ m. []) spec.metrics;
  results = [];
  progressed = [];
}

abbrev pub late_trial_ns : ℕ
late_trial_ns = 1_000_000

abbrev pub trial_ns : Trial → ℕ
trial_ns t = ns_between t.t_release t.t_done

-- `spread_us > kLateTrialUs`, in nanoseconds
unfoldable pub is_late : Trial → Bool
is_late t =
    let sums = sum_slots t.slots in ltb late_trial_ns (ns_between sums.first_start sums.last_start)

unfoldable pub in_warmup : {D : Type 0} → Config → Session D → Bool
in_warmup cfg s =
    ltb s.warmups_done cfg.warmup_trials || ltb s.active_ns (u64 (cfg.warmup_ms * 1_000_000))

unfoldable pub wants_more_trials : {D : Type 0} → Config → Session D → Bool
wants_more_trials cfg s = in_warmup cfg s || ltb s.timed_done cfg.trials

latencies_of : List Slot → List Latencies.Slot
latencies_of slots = map (λ s. s.latency) slots

-- `values_[mi].push_back(r.value)` for each of the metrics
unfoldable pub push_values : {D : Type 0} → List (List D) → List D → List (List D)
push_values [] vs = []
push_values (column ∷ columns) [] = column ∷ columns
push_values (column ∷ columns) (v ∷ vs) = (column ++ v ∷ []) ∷ push_values columns vs

module _ (d : Double) (rank_of : ℕ → ℕ) where
  open d use {D, from_ℕ}

  unfoldable pub value_of : ConfigSpec → Trial → Metric → D
  unfolding latencies_of
  value_of spec t m = elim (value_rule_of m) [
    | ValueRule.latency_p99_us ↦ from_ℕ (merge_latencies rank_of (latencies_of t.slots)).p99_us
    | _ ↦ value_from_units d m (sum_slots t.slots).total_ops (trial_ns t) spec.threads
  ]

  -- The body of the loop over the metrics, up to the callback.
  unfoldable pub result_of : ConfigSpec → Trial → (warmups : ℕ) (trial : ℤ) → Metric → Result D
  unfolding latencies_of
  result_of spec t warmups trial m = record {
    workload = spec.kind;
    thread_count = spec.threads;
    working_set_bytes = spec.working_set;
    metric = m;
    value = value_of spec t m;
    trial = trial;
    duration_ns = if trial_ns t == 0 then 1 else trial_ns t;
    warmups_run = warmups;
    sums = sum_slots t.slots;
    late_start = is_late t;
    latency = merge_latencies rank_of (latencies_of t.slots);
  }

  unfoldable pub run_one_trial : Config → ConfigSpec → Trial → Session D → Session D
  run_one_trial cfg spec t s =
      let warmup = in_warmup cfg s in
      let warmups = if warmup then suc s.warmups_done else s.warmups_done in
      let timed = if warmup then s.timed_done else suc s.timed_done in
      let number = if warmup then neg warmups else pos (timed - 1) in
      let found = map (result_of spec t warmups number) spec.metrics in
      record {
        warmups_done = warmups;
        timed_done = timed;
        late_trials = if not warmup && is_late t then suc s.late_trials else s.late_trials;
        active_ns = u64 (s.active_ns + trial_ns t);
        values = if warmup then s.values else push_values s.values (map (λ r. r.value) found);
        results = if warmup then s.results else s.results ++ found;
        progressed = s.progressed ++ map (λ r. (r, warmup)) found;
      }

  unfoldable pub run_trials : Config → ConfigSpec → List Trial → Session D → Session D
  run_trials cfg spec [] s = s
  run_trials cfg spec (t ∷ ts) s = run_trials cfg spec ts (run_one_trial cfg spec t s)
