-- ===== src/Session/Report.antt =====
-- `ConfigSession`, described by the trials alone: which of them are warm-up, and what a session that
-- has run them reports. No state is kept.
use benchmark_platform.Prelude.{
  ℕ, suc, ◌+◌, ◌*◌, ◌≡◌, Bool, true, false, ◌||◌, List, [], ◌∷◌, ◌++◌, map, ltb, if◌then◌else◌,
  length, take, drop,
}
use benchmark_platform.Prelude.Double.{Double}
use benchmark_platform.Prelude.Int.{pos, neg}
use benchmark_platform.Session.{
  Config, ConfigSpec, Trial, Result, Session, trial_ns, is_late, value_of, result_of,
}

abbrev pub total_ns : List Trial → ℕ
total_ns [] = 0
total_ns (t ∷ ts) = trial_ns t + total_ns ts

-- The warm-up: the least number of trials that is `warmup_trials` or more and that takes
-- `warmup_ms` or more. `done` trials, of `active` nanoseconds, came before.
unfoldable pub warmups_from : Config → (done active : ℕ) → List Trial → ℕ
warmups_from cfg done active [] = 0
warmups_from cfg done active (t ∷ ts) =
    let more = warmups_from cfg (suc done) (active + trial_ns t) ts in
    if ltb done cfg.warmup_trials || ltb active (cfg.warmup_ms * 1_000_000) then suc more else 0

abbrev pub count_late : List Trial → ℕ
count_late [] = 0
count_late (t ∷ ts) = (if is_late t then 1 else 0) + count_late ts

module _ (d : Double) (rank_of : ℕ → ℕ) (spec : ConfigSpec) where
  open d use {D}

  -- One column for each metric, with the value of each trial.
  unfoldable pub columns : List Trial → List (List D)
  columns ts = map (λ m. map (λ t. value_of d rank_of spec t m) ts) spec.metrics

  -- The results of timed trials, numbered from `n` on, after `w` warm-up trials.
  unfoldable pub timed_from : (w n : ℕ) → List Trial → List (Result D)
  timed_from w n [] = []
  timed_from w n (t ∷ ts) =
      map (result_of d rank_of spec t w (pos n)) spec.metrics ++ timed_from w (suc n) ts

  -- What is reported of warm-up trials after `done` others.
  unfoldable pub warm_from : (done : ℕ) → List Trial → List (Result D × Bool)
  warm_from done [] = []
  warm_from done (t ∷ ts) =
      map (λ r. (r, true))
        (map (result_of d rank_of spec t (suc done) (neg (suc done))) spec.metrics)
      ++ warm_from (suc done) ts

  -- A session that has run the trials `ts`, of which the first `w` are warm-up.
  pub record Reports (w : ℕ) (ts : List Trial) (s : Session D) : Type 0 where
    pub warmups : s.warmups_done ≡ w
    pub timed : s.timed_done ≡ length (drop w ts)
    pub late : s.late_trials ≡ count_late (drop w ts)
    pub collected : s.values ≡ columns (drop w ts)
    pub emitted : s.results ≡ timed_from w 0 (drop w ts)
    pub called :
        s.progressed ≡ warm_from 0 (take w ts) ++ map (λ r. (r, false)) (timed_from w 0 (drop w ts))
