-- ===== src/Run/Loop.antt =====
-- `trial_loop`: it ends, and with which session.
use benchmark_platform.Prelude.{
  ℕ, zero, suc, ◌+◌, ◌-◌, ◌*◌, ◌<◌, ◌≤◌, ◌^◌, ◌%◌, ◌≡◌, refl, arith, true, false, List, [], ◌∷◌,
  map, take, length, Bool-cases, inl, inr, some, All,
}
use benchmark_platform.Prelude.Double.{Double}
use benchmark_platform.Session.{
  Config, ConfigSpec, Trial, Session, new_session, trial_ns, in_warmup, wants_more_trials,
  run_one_trial, run_trials,
}
use benchmark_platform.Session.Report.{total_ns, warmups_from, Reports}
use benchmark_platform.Session.Timed.{run_one_trial_warm, run_one_trial_timed}
use benchmark_platform.Session.Refines.{run_trials-Reports}
use benchmark_platform.Run.{StopReason, Reading, Limits, should_stop, trial_loop}

abbrev pub trials_of : List (Reading × Trial) → List Trial
trials_of script = map (λ e. e.1) script

abbrev pub Quiet : Limits → List (Reading × Trial) → Type 0
Quiet limits script =
    All (λ e. (should_stop limits e.0 ≡ StopReason.not_stopped) × 0 < trial_ns e.1) script

total_take_le : (n : ℕ) (ts : List Trial) → total_ns (take n ts) ≤ total_ns ts
total_take_le zero ts = omega arith
total_take_le (suc n) [] = omega arith
total_take_le (suc n) (t ∷ ts) = omega (arith, total_take_le n ts)

-- At most so many trials are still to run.
abbrev pub trials_left : {D : Type 0} → Config → Session D → ℕ
trials_left cfg s =
    cfg.warmup_trials
    - s.warmups_done
    + (cfg.warmup_ms * 1_000_000 - s.active_ns)
    + (cfg.trials - s.timed_done)

module _ (d : Double) (rank_of : ℕ → ℕ) (cfg : Config) (limits : Limits) (spec : ConfigSpec) where
  open d use {D}

  -- What a trial does to the bounds on a session.
  record Advances (t : Trial) (s s' : Session D) : Type 0 where
    left : trials_left cfg s' < trials_left cfg s
    timed : s'.timed_done ≤ cfg.trials
    active : s'.active_ns ≡ s.active_ns + trial_ns t

  run_one_trial-Advances :
      (t : Trial) (s : Session D)
      → cfg.warmup_ms < 2 ^ 31
      → wants_more_trials cfg s ≡ true
      → s.timed_done ≤ cfg.trials
      → 0 < trial_ns t
      → s.active_ns + trial_ns t < 2 ^ 64
      → Advances t s (run_one_trial d rank_of cfg spec t s)
  unfolding wants_more_trials in_warmup
  run_one_trial-Advances t s small more le ns bound = elim (Bool-cases (in_warmup cfg s)) [
    | inl warm ↦
        let active : (s.active_ns + trial_ns t) % 2 ^ 64 ≡ s.active_ns + trial_ns t = omega arith in
        rw (run_one_trial_warm d rank_of cfg spec t s warm)
          (record { left = ground arith; timed = le; active = active })
    | inr cold ↦
        let active : (s.active_ns + trial_ns t) % 2 ^ 64 ≡ s.active_ns + trial_ns t = omega arith in
        rw (run_one_trial_timed d rank_of cfg spec t s cold)
          (record { left = ground arith; timed = ground arith; active = active })
  ]

  no_more_timed :
      (s : Session D)
      → wants_more_trials cfg s ≡ false
      → s.timed_done ≤ cfg.trials
      → s.timed_done ≡ cfg.trials
  unfolding wants_more_trials in_warmup
  no_more_timed s e le = ground arith

  no_trials_left :
      (s : Session D)
      → cfg.warmup_ms < 2 ^ 31
      → trials_left cfg s ≡ 0
      → wants_more_trials cfg s ≡ false
  unfolding wants_more_trials in_warmup
  no_trials_left s small e = ground arith

  trial_loop-run :
      (script : List (Reading × Trial)) (s : Session D)
      → cfg.warmup_ms < 2 ^ 31
      → Quiet limits script
      → s.timed_done ≤ cfg.trials
      → s.active_ns + total_ns (trials_of script) < 2 ^ 64
      → trials_left cfg s ≤ length script
      → (n : ℕ) × (trial_loop d rank_of cfg limits spec script s
          ≡ some
              (run_trials d rank_of cfg spec (take n (trials_of script)) s, StopReason.not_stopped))
        × ((run_trials d rank_of cfg spec (take n (trials_of script)) s).timed_done ≡ cfg.trials)
  unfolding run_trials trial_loop
  trial_loop-run [] s small q le bound enough =
      let done : wants_more_trials cfg s ≡ false = no_trials_left s small (omega arith) in
      (0, rw done refl, no_more_timed s done le)
  trial_loop-run ((reading, t) ∷ script) s small q le bound enough =
      elim (Bool-cases (wants_more_trials cfg s)) [
        | inr done ↦ (0, rw done refl, no_more_timed s done le)
        | inl more ↦
            let a : Advances t s (run_one_trial d rank_of cfg spec t s) =
              run_one_trial-Advances t s small more le q.0.1 (omega arith) in
            let ih =
              trial_loop-run script (run_one_trial d rank_of cfg spec t s) small q.1 a.timed
                (omega (arith, a.active)) (omega (arith, a.left)) in
            (suc ih.0, rw (more, q.0.0) ih.1, ih.2)
      ]

  -- As long as nothing stops the run, every trial lasts, and all of them together last less than
  -- 2^64 nanoseconds, the loop over the trials of a session ends after at most as many trials as
  -- the warm-up trials, the nanoseconds of the warm-up and the timed trials together, with
  -- exactly the number of timed trials asked for and with the report of the trials that it ran.
  pub trial_loop-Reports :
      (script : List (Reading × Trial))
      → cfg.warmup_ms < 2 ^ 31
      → Quiet limits script
      → total_ns (trials_of script) < 2 ^ 64
      → cfg.warmup_trials + cfg.warmup_ms * 1_000_000 + cfg.trials ≤ length script
      → (n : ℕ) × (s : Session D) × (trial_loop d rank_of cfg limits spec script (new_session spec)
          ≡ some (s, StopReason.not_stopped))
        × (s.timed_done ≡ cfg.trials)
        × Reports d rank_of spec
            (warmups_from cfg 0 0 (take n (trials_of script)))
            (take n (trials_of script))
            s
  unfolding new_session
  trial_loop-Reports script small q bound enough =
      let r =
        trial_loop-run script (new_session spec) small q (omega arith) (omega arith)
          (omega arith) in
      (
        r.0,
        _,
        r.1,
        r.2,
        run_trials-Reports d rank_of cfg spec _ small
            (omega (arith, total_take_le r.0 (trials_of script))),
      )
