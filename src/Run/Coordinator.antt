-- ===== src/Run/Coordinator.antt =====
-- engine/src/runner.cpp: what a session emits into the envelope, and the two orders in which
-- `run_benchmarks` steps the sessions. The statistics of a summary, which follow from its values,
-- and the envelope's description of the machine and of the run are left out.
use benchmark_platform.Prelude.{
  ◌&&◌, ℕ, zero, suc, Bool, true, false, Option, none, some, List, [], ◌∷◌, ◌++◌, length,
  if◌then◌else◌,
}
use benchmark_platform.Prelude.Double.{Double}
use benchmark_platform.Metric.{Workload, Metric}
use benchmark_platform.Session.{
  Config, ConfigSpec, Trial, Result, Session, wants_more_trials, run_one_trial,
}
use benchmark_platform.Run.{
  StopReason, Reading, Limits, ClockCheck, Attempt, Ending, should_stop, is_not_stopped, run_config,
}

pub record Summary (D : Type 0) : Type 0 where
  pub workload : Workload
  pub metric : Metric
  pub thread_count : ℕ
  pub working_set_bytes : ℕ
  pub n : ℕ
  pub late_trials : ℕ
  pub canary_attempts : ℕ
  pub clock_call_ns_start : D
  pub clock_call_ns_end : D

pub record Envelope (D : Type 0) : Type 0 where
  pub results : List (Result D)
  pub summary : List (Summary D)

unfoldable pub is_empty : {A : Type 0} → List A → Bool
is_empty [] = true
is_empty (x ∷ xs) = false

module _ {D : Type 0} where
  -- One summary for each metric that has values.
  unfoldable pub summaries_of :
      ConfigSpec
      → (late attempts : ℕ) (canary_start canary_end : ClockCheck D) → List Metric
      → List (List D)
      → List (Summary D)
  summaries_of spec late attempts c1 c2 [] values = []
  summaries_of spec late attempts c1 c2 (m ∷ ms) [] = []
  summaries_of spec late attempts c1 c2 (m ∷ ms) (column ∷ values) =
      let more = summaries_of spec late attempts c1 c2 ms values in
      if is_empty column
      then more
      else record {
        workload = spec.kind;
        metric = m;
        thread_count = spec.threads;
        working_set_bytes = spec.working_set;
        n = length column;
        late_trials = late;
        canary_attempts = attempts;
        clock_call_ns_start = c1.mean_call_ns;
        clock_call_ns_end = c2.mean_call_ns;
      }
        ∷ more

  unfoldable pub emit :
      Envelope D
      → ConfigSpec
      → Session D
      → (canary_start canary_end : ClockCheck D) → ℕ
      → Envelope D
  emit out spec s c1 c2 attempts = if is_empty s.results then out else record {
    results = out.results ++ s.results;
    summary = out.summary ++ summaries_of spec s.late_trials attempts c1 c2 spec.metrics s.values;
  }

-- How `run_benchmarks` ends: by returning the envelope, or by the exception of a failed setup.
pub data Finish (D : Type 0) : Type 0 where
  returns : Envelope D → StopReason → Finish D
  throws : Finish D

module _ (d : Double) (at_most : d.D → d.D → Bool) (rank_of : ℕ → ℕ) (cfg : Config)
    (limits : Limits) (canary_retries : ℕ) where
  open d use {D}

  -- One configuration after the other. Each comes with what its attempts meet.
  unfoldable pub run_sequential :
      List (ConfigSpec × List (Attempt D)) → Envelope D → Option (Finish D)
  run_sequential [] out = some (Finish.returns out StopReason.not_stopped)
  run_sequential ((spec, attempts) ∷ specs) out =
      elim (run_config d at_most rank_of cfg limits canary_retries spec 0 attempts) [
        | none ↦ none
        | some Ending.setup_failed ↦ some Finish.throws
        | some (Ending.emits s c1 c2 k stop) ↦
            let now = emit out spec s c1 c2 k in
            let more = run_sequential specs now in
            if is_not_stopped stop then more else some (Finish.returns now stop)
      ]

-- A session of an interleaved run, and what the world shows at each of its turns: the reading of
-- `should_stop` in a round, and the trial, if one is run in that round.
pub record Turn (D : Type 0) : Type 0 where
  pub spec : ConfigSpec
  pub world : ℕ → Reading × Trial
  pub session : Session D

pub record Round (D : Type 0) : Type 0 where
  pub any : Bool
  pub turns : List (Turn D)
  pub stop : StopReason

module _ (d : Double) (rank_of : ℕ → ℕ) (cfg : Config) (limits : Limits) where
  open d use {D}

  unfoldable pub take_turn : (n : ℕ) → Turn D → Turn D
  take_turn n turn =
      if wants_more_trials cfg turn.session
      then record {
        spec = turn.spec;
        world = turn.world;
        session = run_one_trial d rank_of cfg turn.spec (turn.world n).1 turn.session;
      }
      else turn

  -- The `for` over the sessions, in round `n`.
  unfoldable pub run_round : (n : ℕ) → List (Turn D) → (any : Bool) → Round D
  run_round n [] any = record { any = any; turns = []; stop = StopReason.not_stopped }
  run_round n (turn ∷ turns) any =
      let rest = run_round n turns (if wants_more_trials cfg turn.session then true else any) in
      let stop = should_stop limits (turn.world n).0 in
      if is_not_stopped stop
      then record { any = rest.any; turns = take_turn n turn ∷ rest.turns; stop = rest.stop }
      else record { any = any; turns = turn ∷ turns; stop = stop }

  -- `while (any && stop == StopReason::none)`, in at most `fuel` rounds from round `n`.
  unfoldable pub run_interleaved :
      (fuel n : ℕ) → List (Turn D) → Option (List (Turn D) × StopReason)
  run_interleaved zero n turns = none
  run_interleaved (suc fuel) n turns =
      let r = run_round n turns false in
      let more = run_interleaved fuel (suc n) r.turns in
      if r.any && is_not_stopped r.stop then more else some (r.turns, r.stop)
