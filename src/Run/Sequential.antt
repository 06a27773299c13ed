-- ===== src/Run/Sequential.antt =====
-- `run_sequential`: which results the envelope has at the end.
use benchmark_platform.Prelude.{
  ℕ, zero, suc, ◌+◌, ◌*◌, ◌<◌, ◌≤◌, ◌^◌, ◌≡◌, refl, sym, ap, ap₂, subst, ◌∙◌, Bool, true, List, [],
  ◌∷◌, ◌++◌, map, map-append, append_assoc, append-nil, length, Option, some, none, All, take, drop,
  get_elem?, if◌then◌else◌,
}
use mathlib.Core.Option
use benchmark_platform.Prelude.Double.{Double}
use benchmark_platform.Prelude.Int.{ℤ, pos}
use benchmark_platform.Metric.{Workload, Metric}
use benchmark_platform.Session.{new_session, Config, ConfigSpec, Trial, Result, Session, result_of}
use benchmark_platform.Session.Report.{total_ns, timed_from, warmups_from}
use benchmark_platform.Run.{
  trial_loop, run_config, Ending, StopReason, Limits, ClockCheck, Attempt, is_not_stopped,
}
use benchmark_platform.Run.Loop.{trials_of, Quiet, trial_loop-Reports}
use benchmark_platform.Run.Attempts.{Ends, Keeps, run_config-Keeps}
use benchmark_platform.Run.Coordinator.{
  Envelope, Summary, Finish, summaries_of, is_empty, emit, run_sequential,
}

-- What a result is of: workload, metric, threads, working set, trial.
abbrev pub Key : Type 0
Key = Workload × Metric × ℕ × ℕ × ℤ

abbrev pub key : {D : Type 0} → Result D → Key
key r = (r.workload, r.metric, r.thread_count, r.working_set_bytes, r.trial)

abbrev pub keys_from : ConfigSpec → (n k : ℕ) → List Key
keys_from spec n zero = []
keys_from spec n (suc k) =
    map (λ m. (spec.kind, m, spec.threads, spec.working_set, pos n)) spec.metrics
    ++ keys_from spec (suc n) k

-- The trials 0, 1, … of each configuration in order, each with its metrics in order.
abbrev pub all_keys : ℕ → List ConfigSpec → List Key
all_keys trials [] = []
all_keys trials (spec ∷ specs) = keys_from spec 0 trials ++ all_keys trials specs

module _ (d : Double) (at_most : d.D → d.D → Bool) (rank_of : ℕ → ℕ) (cfg : Config)
    (limits : Limits) (canary_retries : ℕ) where
  open d use {D}

  -- The workers set up, nothing stops the attempt, and its script is long enough.
  pub record Ready (a : Attempt D) : Type 0 where
    pub set_up : a.set_up ≡ true
    pub unstopped : Quiet limits a.script
    pub bounded : total_ns (trials_of a.script) < 2 ^ 64
    pub enough : cfg.warmup_trials + cfg.warmup_ms * 1_000_000 + cfg.trials ≤ length a.script

  map-key-result_of :
      (spec : ConfigSpec) (t : Trial) (w n : ℕ) (ms : List Metric)
      → map key (map (result_of d rank_of spec t w (pos n)) ms)
        ≡ map (λ m. (spec.kind, m, spec.threads, spec.working_set, pos n)) ms
  unfolding result_of
  map-key-result_of spec t w n [] = refl
  map-key-result_of spec t w n (m ∷ ms) =
      ap (λ l. (spec.kind, m, spec.threads, spec.working_set, pos n) ∷ l)
        (map-key-result_of spec t w n ms)

  map-key-timed_from :
      (spec : ConfigSpec) (w n : ℕ) (ts : List Trial)
      → map key (timed_from d rank_of spec w n ts) ≡ keys_from spec n (length ts)
  unfolding timed_from
  map-key-timed_from spec w n [] = refl
  map-key-timed_from spec w n (t ∷ ts) =
      map-append key _ (timed_from d rank_of spec w (suc n) ts)
      ∙ ap₂ ◌++◌ (map-key-result_of spec t w n spec.metrics) (map-key-timed_from spec w (suc n) ts)

  -- What a session that was not stopped holds.
  Whole : ConfigSpec → Option (Session D × StopReason) → Type 0
  Whole spec none = Unit
  Whole spec (some (s, stop)) =
      (stop ≡ StopReason.not_stopped) × (map key s.results ≡ keys_from spec 0 cfg.trials)

  Ready-Ends :
      (spec : ConfigSpec) (a : Attempt D)
      → cfg.warmup_ms < 2 ^ 31
      → Ready a
      → Ends d at_most rank_of cfg limits canary_retries spec a
  Ready-Ends spec a small r =
      let l =
        trial_loop-Reports d rank_of cfg limits spec a.script small r.unstopped r.bounded
          r.enough in
      record { set_up = r.set_up; session = l.1; stop = StopReason.not_stopped; loop = l.2 }

  Ready-Whole :
      (spec : ConfigSpec) (a : Attempt D) (s : Session D) (stop : StopReason)
      → cfg.warmup_ms < 2 ^ 31
      → Ready a
      → trial_loop d rank_of cfg limits spec a.script (new_session spec) ≡ some (s, stop)
      → Whole spec (some (s, stop))
  unfolding Whole
  Ready-Whole spec a s stop small r e =
      let l =
        trial_loop-Reports d rank_of cfg limits spec a.script small r.unstopped r.bounded
          r.enough in
      let w : ℕ = warmups_from cfg 0 0 (take l.0 (trials_of a.script)) in
      let timed : List Trial = drop w (take l.0 (trials_of a.script)) in
      let keys : map key l.1.results ≡ keys_from spec 0 (length timed) =
        ap (map key) l.4.emitted ∙ map-key-timed_from spec w 0 timed in
      subst (λ o. Whole spec o) (sym l.2 ∙ e)
        (refl, keys ∙ ap (keys_from spec 0) (sym l.4.timed ∙ l.3))

  map-key-emit_results :
      (out : Envelope D) (rs : List (Result D)) (summary : List (Summary D))
      → map key
          (if is_empty rs
            then out
            else record { results = out.results ++ rs; summary = summary }).results
        ≡ map key out.results ++ map key rs
  unfolding is_empty
  map-key-emit_results out [] summary = sym (append-nil (map key out.results))
  map-key-emit_results out (r ∷ rs) summary = map-append key out.results (r ∷ rs)

  map-key-emit :
      (out : Envelope D) (spec : ConfigSpec) (s : Session D) (c1 c2 : ClockCheck D) (k : ℕ)
      → map key (emit out spec s c1 c2 k).results ≡ map key out.results ++ map key s.results
  unfolding emit
  map-key-emit out spec s c1 c2 k =
      map-key-emit_results out s.results
        (out.summary ++ summaries_of spec s.late_trials k c1 c2 spec.metrics s.values)

  All-Ends :
      (spec : ConfigSpec) (attempts : List (Attempt D))
      → cfg.warmup_ms < 2 ^ 31
      → All Ready attempts
      → All (Ends d at_most rank_of cfg limits canary_retries spec) attempts
  All-Ends spec [] small r = tt
  All-Ends spec (a ∷ attempts) small r =
      (Ready-Ends spec a small r.0, All-Ends spec attempts small r.1)

  All-at :
      (attempts : List (Attempt D)) (i : ℕ) (a : Attempt D)
      → All Ready attempts
      → get_elem? attempts i ≡ some a
      → Ready a
  All-at [] i a r e = absurd (Option.none-ne-some a e)
  All-at (b ∷ attempts) zero a r e = subst Ready (Option.some-injective b a e) r.0
  All-at (b ∷ attempts) (suc i) a r e = All-at attempts i a r.1 e

  -- A configuration that is not stopped emits its session.
  record Emits (spec : ConfigSpec) (attempts : List (Attempt D)) : Type 0 where
    session : Session D
    canary_start : ClockCheck D
    canary_end : ClockCheck D
    count : ℕ
    result :
        run_config d at_most rank_of cfg limits canary_retries spec 0 attempts
        ≡ some (Ending.emits session canary_start canary_end count StopReason.not_stopped)
    keys : map key session.results ≡ keys_from spec 0 cfg.trials

  run_config-Emits :
      (spec : ConfigSpec) (attempts : List (Attempt D))
      → cfg.warmup_ms < 2 ^ 31
      → All Ready attempts
      → canary_retries < length attempts
      → Emits spec attempts
  unfolding Whole
  run_config-Emits spec attempts small r enough =
      let k : Keeps d at_most rank_of cfg limits canary_retries spec 0 attempts
          (run_config d at_most rank_of cfg limits canary_retries spec 0 attempts) =
        run_config-Keeps d at_most rank_of cfg limits canary_retries spec attempts
          (All-Ends spec attempts small r) enough in
      let whole : Whole spec (some (k.session, k.stop)) =
        Ready-Whole spec k.attempt k.session k.stop small (All-at attempts k.index k.attempt r k.at)
          k.loop in
      record {
        session = k.session;
        canary_start = k.attempt.canary_start;
        canary_end = k.attempt.canary_end;
        count = suc (0 + k.index);
        result =
            k.result
            ∙ ap
                (λ stop. some (
                  Ending.emits k.session k.attempt.canary_start k.attempt.canary_end
                    (suc (0 + k.index)) stop))
                whole.0;
        keys = whole.1;
      }

  run_sequential-cons :
      (spec : ConfigSpec) (attempts : List (Attempt D))
      (specs : List (ConfigSpec × List (Attempt D))) (out : Envelope D) (s : Session D)
      (c1 c2 : ClockCheck D) (k : ℕ)
      → run_config d at_most rank_of cfg limits canary_retries spec 0 attempts
        ≡ some (Ending.emits s c1 c2 k StopReason.not_stopped)
      → run_sequential d at_most rank_of cfg limits canary_retries ((spec, attempts) ∷ specs) out
        ≡ run_sequential d at_most rank_of cfg limits canary_retries specs (emit out spec s c1 c2 k)
  unfolding run_sequential is_not_stopped
  run_sequential-cons spec attempts specs out s c1 c2 k e = rw (e, run_sequential) refl

  -- When every attempt sets up, lasts and is not stopped, with as many attempts for each
  -- configuration as may be needed, for a warm-up time below 2^31 milliseconds, the sequential
  -- run returns; its results are those of the configurations in their order, each with its trials
  -- 0, 1, … up to the number asked for, and each trial with its metrics in order.
  pub run_sequential_complete :
      (specs : List (ConfigSpec × List (Attempt D))) (out : Envelope D)
      → cfg.warmup_ms < 2 ^ 31
      → All (λ e. All Ready e.1 × canary_retries < length e.1) specs
      → (out' : Envelope D) × (run_sequential d at_most rank_of cfg limits canary_retries specs out
          ≡ some (Finish.returns out' StopReason.not_stopped))
        × (map key out'.results ≡ map key out.results ++ all_keys cfg.trials (map (λ e. e.0) specs))
  unfolding run_sequential is_not_stopped
  run_sequential_complete [] out small r = (out, refl, sym (append-nil (map key out.results)))
  run_sequential_complete ((spec, attempts) ∷ specs) out small r =
      let e : Emits spec attempts = run_config-Emits spec attempts small r.0.0 r.0.1 in
      let now : Envelope D = emit out spec e.session e.canary_start e.canary_end e.count in
      let ih = run_sequential_complete specs now small r.1 in
      (
        ih.0,
        run_sequential-cons spec attempts specs out e.session e.canary_start e.canary_end e.count
              e.result
            ∙ ih.1,
        ih.2
            ∙ ap (λ l. l ++ all_keys cfg.trials (map (λ e. e.0) specs))
                (map-key-emit out spec e.session e.canary_start e.canary_end e.count
                  ∙ ap (λ l. map key out.results ++ l) e.keys)
            ∙ append_assoc (map key out.results) (keys_from spec 0 cfg.trials)
                (all_keys cfg.trials (map (λ e. e.0) specs)),
      )
