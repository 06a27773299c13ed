-- ===== src/Tests/Sessions.antt =====
-- The sessions and the coordinator: the theorems at concrete inputs.
use benchmark_platform.Prelude.{
  ℕ, ◌+◌, ◌*◌, ◌/◌, ◌≡◌, ◌↔◌, refl, arith, Bool, true, false, List, [], ◌∷◌, ◌++◌, map, some, none,
  leb, length, take, get_elem?,
}
use benchmark_platform.Prelude.Int.{pos}
use benchmark_platform.Metric.{Workload, Metric}
use benchmark_platform.Session.{Slot, Trial, Config, ConfigSpec, Session, new_session, run_trials}
use benchmark_platform.Session.Report.{warmups_from, Reports}
use benchmark_platform.Session.Refines.{run_trials-Reports}
use benchmark_platform.Plan.Specs.{Args, Accepts, Verdict, check_args, specs_of}
use benchmark_platform.Plan.Checks.{check_args_iff}
use benchmark_platform.Plan.Layout.{spec_for, specs_of-at}
use benchmark_platform.Run.{
  should_stop, StopReason, Reading, Limits, ClockCheck, Attempt, trial_loop, run_config,
}
use benchmark_platform.Run.Loop.{trials_of, Quiet, trial_loop-Reports}
use benchmark_platform.Run.Attempts.{Ends, Keeps, run_config-Keeps}
use benchmark_platform.Run.Coordinator.{Envelope, Finish, Turn, run_sequential, run_interleaved}
use benchmark_platform.Run.Sequential.{Ready, key, all_keys, run_sequential_complete}
use benchmark_platform.Run.Interleaved.{script_from, Alone, alone, run_interleaved-alone}
use benchmark_platform.Tests.Fraction.{Fraction, fractions}

abbrev nearest : ℕ → ℕ
nearest n = (n * 99 + 99) / 100

abbrev at_most : Fraction → Fraction → Bool
at_most x y = leb (x.num * y.den) (y.num * x.den)

-- One trial of warm-up at least, then two timed ones.
abbrev cfg : Config
cfg = record { trials = 2; warmup_trials = 1; warmup_ms = 0 }

abbrev spec : ConfigSpec
spec = record {
  kind = Workload.cpu_int;
  metrics = Metric.cpu_int_ops ∷ [];
  threads = 1;
  working_set = 0;
}

abbrev slot : Slot
slot = record {
  ops = 7;
  cold_ns = 0;
  pre_ns = 0;
  start = 110;
  cpu_start = some 0;
  cpu_end = some 0;
  assigned_cpu = some 0;
  pin_errno = 0;
  latency = record { hist = none; hist_used = 0 };
}

abbrev trial : Trial
trial = record { t_release = 100; t_done = 150; slots = slot ∷ [] }

abbrev trials : List Trial
trials = trial ∷ trial ∷ trial ∷ []

run_trials-Reports_example :
    Reports fractions nearest spec
      (warmups_from cfg 0 0 trials)
      trials
      (run_trials fractions nearest cfg spec trials (new_session spec))
run_trials-Reports_example =
    run_trials-Reports fractions nearest cfg spec trials (omega arith) (omega arith)

abbrev limits : Limits
limits = record { write_budget_bytes = 0; deadline = none }

abbrev reading : Reading
reading = record { abort = false; bytes_written = 0; now = 0 }

abbrev script : List (Reading × Trial)
script = (reading, trial) ∷ (reading, trial) ∷ (reading, trial) ∷ []

quiet_here : should_stop limits reading ≡ StopReason.not_stopped
unfolding should_stop
quiet_here = refl

Quiet-script : Quiet limits script
Quiet-script =
    ((quiet_here, omega arith), ((quiet_here, omega arith), ((quiet_here, omega arith), tt)))

script_ends :
    (s : Session Fraction) × (trial_loop fractions nearest cfg limits spec script (new_session spec)
      ≡ some (s, StopReason.not_stopped))
script_ends =
    let r =
      trial_loop-Reports fractions nearest cfg limits spec script (omega arith) Quiet-script
        (omega arith) (omega arith) in
    (r.1, r.2)

trial_loop-Reports_example :
    (n : ℕ) × (s : Session Fraction) × (trial_loop fractions nearest cfg limits spec script
        (new_session spec)
      ≡ some (s, StopReason.not_stopped))
    × (s.timed_done ≡ 2)
    × Reports fractions nearest spec
        (warmups_from cfg 0 0 (take n (trials_of script)))
        (take n (trials_of script))
        s
trial_loop-Reports_example =
    trial_loop-Reports fractions nearest cfg limits spec script (omega arith) Quiet-script
      (omega arith) (omega arith)

abbrev check : ClockCheck Fraction
check = record { mean_call_ns = record { num = 20; den = 1 }; min_call_ns = 15; monotonic = true }

abbrev attempt : Attempt Fraction
attempt = record {
  canary_start = check;
  now = 0;
  set_up = true;
  script = script;
  canary_end = check;
}

attempt-Ends : Ends fractions at_most nearest cfg limits 0 spec attempt
attempt-Ends = record {
  set_up = refl;
  session = script_ends.0;
  stop = StopReason.not_stopped;
  loop = script_ends.1;
}

run_config-Keeps_example :
    Keeps fractions at_most nearest cfg limits 0 spec 0
      (attempt ∷ [])
      (run_config fractions at_most nearest cfg limits 0 spec 0 (attempt ∷ []))
run_config-Keeps_example =
    run_config-Keeps fractions at_most nearest cfg limits 0 spec (attempt ∷ []) (attempt-Ends, tt)
      (omega arith)

attempt-Ready : Ready fractions at_most nearest cfg limits 0 attempt
attempt-Ready = record {
  set_up = refl;
  unstopped = Quiet-script;
  bounded = omega arith;
  enough = omega arith;
}

abbrev empty_run : Envelope Fraction
empty_run = record { results = []; summary = [] }

run_sequential_complete_example :
    (out : Envelope Fraction) × (run_sequential fractions at_most nearest cfg limits 0
        ((spec, attempt ∷ []) ∷ [])
        empty_run
      ≡ some (Finish.returns out StopReason.not_stopped))
    × (map key out.results ≡ [] ++ all_keys 2 (spec ∷ []))
run_sequential_complete_example =
    run_sequential_complete fractions at_most nearest cfg limits 0 ((spec, attempt ∷ []) ∷ [])
      empty_run (omega arith) (((attempt-Ready, tt), omega arith), tt)

abbrev turn : Turn Fraction
turn = record { spec = spec; world = λ n. (reading, trial); session = new_session spec }

turn-Alone : Alone fractions nearest cfg limits 3 0 turn
unfolding script_from
turn-Alone = record { unstopped = λ r. quiet_here; session = script_ends.0; ends = script_ends.1 }

run_interleaved-alone_example :
    run_interleaved fractions nearest cfg limits 4 0 (turn ∷ turn ∷ [])
    ≡ some (map (alone fractions nearest cfg limits 3 0) (turn ∷ turn ∷ []), StopReason.not_stopped)
run_interleaved-alone_example =
    run_interleaved-alone fractions nearest cfg limits 3 0 (turn ∷ turn ∷ [])
      (turn-Alone, (turn-Alone, tt))

abbrev args : Args
args = record {
  trials = pos 2;
  warmup_trials = pos 0;
  warmup_ms = pos 500;
  trial_ms = pos 50;
  max_seconds_negative = false;
  max_seconds_finite = true;
  thread_counts = pos 1 ∷ pos 4 ∷ [];
  cpus = [];
}

check_args_iff_example : ((check_args args ≡ none) ↔ Accepts args) × Verdict args (check_args args)
check_args_iff_example = check_args_iff args

specs_of-at_example :
    (specs : List ConfigSpec) × (specs_of
        (Metric.mem_read_bw ∷ Metric.mem_latency ∷ [])
        (1 ∷ 4 ∷ [])
        (0 ∷ [])
      ≡ some specs)
    × (length specs ≡ 2 * (2 * 1))
    × (get_elem? specs (1 * (2 * 1) + (1 * 1 + 0)) ≡ some (spec_for Metric.mem_latency 4 0))
specs_of-at_example =
    specs_of-at (Metric.mem_read_bw ∷ Metric.mem_latency ∷ []) (1 ∷ 4 ∷ []) (0 ∷ []) 1 1 0
      Metric.mem_latency 4 0 refl refl refl
