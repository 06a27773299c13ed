-- ===== src/Run.antt =====
-- engine/src/runner.cpp: `run_benchmarks`, the coordinator of the sessions. What it reads of the
-- world is a script: a reading of the abort flag, of the bytes written and of the clock at each call
-- of `should_stop`, a trial at each call of `run_one_trial`, and two clock checks for each attempt.
-- A time is a number of nanoseconds; a `deadline` of `none` is the zero `time_point`.
pub mod Loop
pub mod Attempts
pub mod Coordinator
pub mod Sequential
pub mod Interleaved
use benchmark_platform.Prelude.{
  ℕ, zero, suc, ◌+◌, ◌-◌, ◌*◌, ◌^◌, Bool, true, false, not, ◌&&◌, ◌||◌, Option, none, some, List,
  [], ◌∷◌, ◌++◌, map, ltb, leb, ◌==◌, if◌then◌else◌, length,
}
use benchmark_platform.Prelude.Double.{Double}
use benchmark_platform.Session.{
  Config, ConfigSpec, Trial, Result, Session, new_session, wants_more_trials, run_one_trial,
}

-- `not_stopped` is the source's `none`.
pub data StopReason : Type 0 where
  not_stopped aborted timed_out write_budget : StopReason

pub record Reading : Type 0 where
  pub abort : Bool
  pub bytes_written : ℕ
  pub now : ℕ

pub record Limits : Type 0 where
  pub write_budget_bytes : ℕ
  pub deadline : Option ℕ

pub past : Option ℕ → ℕ → Bool
past none now = false
past (some deadline) now = leb deadline now

-- `not_stopped` where the source returns false.
unfoldable pub should_stop : Limits → Reading → StopReason
unfolding past
should_stop limits r =
    if r.abort
    then StopReason.aborted
    else (if ltb 0 limits.write_budget_bytes && leb limits.write_budget_bytes r.bytes_written
        then StopReason.write_budget
        else (if past limits.deadline r.now then StopReason.timed_out else StopReason.not_stopped))

-- The members of `ClockCheck` that are read.
pub record ClockCheck (D : Type 0) : Type 0 where
  pub mean_call_ns : D
  pub min_call_ns : ℕ
  pub monotonic : Bool

module _ (d : Double) (rank_of : ℕ → ℕ) (cfg : Config) (limits : Limits) where
  open d use {D}

  -- `while (sess->wants_more_trials() && !should_stop(stop)) sess->run_one_trial(progress)`.
  -- A script that ends while the loop still runs gives `none`.
  unfoldable pub trial_loop :
      ConfigSpec → List (Reading × Trial) → Session D → Option (Session D × StopReason)
  trial_loop spec [] s = if wants_more_trials cfg s then none else some (s, StopReason.not_stopped)
  trial_loop spec ((reading, t) ∷ script) s =
      let more = trial_loop spec script (run_one_trial d rank_of cfg spec t s) in
      if wants_more_trials cfg s
      then (elim (should_stop limits reading) [
        | StopReason.not_stopped ↦ more
        | StopReason.aborted ↦ some (s, StopReason.aborted)
        | StopReason.timed_out ↦ some (s, StopReason.timed_out)
        | StopReason.write_budget ↦ some (s, StopReason.write_budget)
      ])
      else some (s, StopReason.not_stopped)

module _ (d : Double) (at_most : d.D → d.D → Bool) where
  open d use {D, from_ℕ, div}

  -- `at_most` is `<=` on doubles.
  unfoldable pub contention_ratio : ClockCheck D → D
  contention_ratio c =
      if c.min_call_ns == 0 then from_ℕ 1 else div c.mean_call_ns (from_ℕ c.min_call_ns)

  unfoldable pub canary_clean : ClockCheck D → Bool
  canary_clean c = c.monotonic && at_most (contention_ratio c) (from_ℕ 3)

abbrev pub backoff_ns : ℕ
backoff_ns = 250_000_000

-- What an attempt at a configuration meets: the clock checks before and after it, the time at which
-- it is seen whether there is room for another, whether the workers could set up, and the trials.
pub record Attempt (D : Type 0) : Type 0 where
  pub canary_start : ClockCheck D
  pub now : ℕ
  pub set_up : Bool
  pub script : List (Reading × Trial)
  pub canary_end : ClockCheck D

pub room_to_retry : Option ℕ → ℕ → Bool
room_to_retry none now = true
room_to_retry (some deadline) now = ltb (now + backoff_ns) deadline

pub is_not_stopped : StopReason → Bool
is_not_stopped StopReason.not_stopped = true
is_not_stopped _ = false

-- How a configuration ends: what its session is asked to emit, or the exception of `start`.
pub data Ending (D : Type 0) : Type 0 where
  emits :
      Session D → (canary_start canary_end : ClockCheck D) → (attempts : ℕ) → StopReason → Ending D
  setup_failed : Ending D

module _ (d : Double) (at_most : d.D → d.D → Bool) (limits : Limits) (canary_retries : ℕ) where
  open d use {D}

  -- Whether an attempt is thrown away for what `canary` says, if it may be.
  unfoldable pub retries : (attempt now : ℕ) → ClockCheck D → Bool
  retries attempt now canary =
      not (canary_clean d at_most canary)
      && not (ltb canary_retries attempt)
      && room_to_retry limits.deadline now

module _ (d : Double) (at_most : d.D → d.D → Bool) (rank_of : ℕ → ℕ) (cfg : Config)
    (limits : Limits) (canary_retries : ℕ) where
  open d use {D}

  -- The `for (;;)` of a configuration, after `attempt` attempts. A script that ends while the loop
  -- still runs gives `none`.
  unfoldable pub run_config : ConfigSpec → (attempt : ℕ) → List (Attempt D) → Option (Ending D)
  run_config spec attempt [] = none
  run_config spec attempt (a ∷ attempts) =
      let again = run_config spec (suc attempt) attempts in
      if retries d at_most limits canary_retries (suc attempt) a.now a.canary_start
      then again
      else (if not a.set_up
          then some Ending.setup_failed
          else (elim (trial_loop d rank_of cfg limits spec a.script (new_session spec)) [
            | none ↦ none
            | some (s, stop) ↦
                if retries d at_most limits canary_retries (suc attempt) a.now a.canary_end
                  && is_not_stopped stop
                then again
                else some (Ending.emits s a.canary_start a.canary_end (suc attempt) stop)
          ]))
