-- ===== src/Tests/Phases.antt =====
-- `SpinBarrier`: the theorems in a concrete state.
use benchmark_platform.Prelude.{ℕ, ◌≤◌, ◌<◌, ◌≡◌, refl, arith, true, false}
use benchmark_platform.Barrier.{
  System, Reach, init, start, later, pick, load, arrive_last, arrive_early, loaded, last, waiting,
}
use benchmark_platform.Prelude.Threads.{put}
use benchmark_platform.Barrier.Safety.{
  arrivals, blocked, Reach-ordered, Reach-exclusive, Reach-live,
}

-- Two threads: both have loaded the generation, thread 1 has arrived and waits, thread 0 was last.
abbrev both_loaded : System
both_loaded = record {
  barrier = (init 2).barrier;
  thread =
      put 1 (record { pc = loaded 0; rounds = 0 })
        (put 0 (record { pc = loaded 0; rounds = 0 }) (init 2).thread);
}

abbrev one_waits : System
one_waits = record {
  barrier = record { count = 1; generation = 0; completions = 0; phase = 0 };
  thread = put 1 (record { pc = waiting 0; rounds = 0 }) both_loaded.thread;
}

abbrev zero_last : System
zero_last = record {
  barrier = record { count = 0; generation = 0; completions = 0; phase = 0 };
  thread = put 0 (record { pc = last 0; rounds = 0 }) one_waits.thread;
}

Reach-both_loaded : Reach 2 both_loaded
Reach-both_loaded = later (later start (pick 0 (omega arith) load)) (pick 1 (omega arith) load)

Reach-one_waits : Reach 2 one_waits
Reach-one_waits = later Reach-both_loaded (pick 1 (omega arith) (arrive_early (omega arith)))

Reach-zero_last : Reach 2 zero_last
Reach-zero_last = later Reach-one_waits (pick 0 (omega arith) (arrive_last refl))

Reach-ordered_example :
    ((zero_last.thread 0).rounds ≤ zero_last.barrier.completions)
    × (zero_last.barrier.completions ≤ arrivals (zero_last.thread 1))
Reach-ordered_example =
    Reach-ordered 2 zero_last 0 1 (omega arith) Reach-zero_last (omega arith) (omega arith)

Reach-exclusive_example : blocked zero_last.barrier (zero_last.thread 1) ≡ true
Reach-exclusive_example =
    Reach-exclusive 2 zero_last 0 1 (omega arith) Reach-zero_last (omega arith) (omega arith)
      (omega arith) refl

Reach-live_example : (i : ℕ) × i < 2 × blocked zero_last.barrier (zero_last.thread i) ≡ false
Reach-live_example = Reach-live 2 zero_last (omega arith) Reach-zero_last
