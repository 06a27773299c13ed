-- ===== src/Barrier.antt =====
-- engine/include/bench/sync.hpp: `SpinBarrier`, and `n` threads that come to it again and again.
-- One step is one access of a shared atomic (or the call of the completion function), in any
-- interleaving; the acquire and release orders of the source make the accesses of `count_` and
-- `generation_` appear in one order. The pause and the sleep between two polls change nothing, so
-- `arrive_and_wait` and `arrive_and_wait_polling` take the same steps.
pub mod Invariant
pub mod Counts
pub mod Fresh
pub mod Moves
pub mod Safety
use benchmark_platform.Prelude.{ℕ, zero, suc, ◌+◌, ◌-◌, ◌%◌, ◌^◌, ◌<◌, ◌≡◌, ◌≢◌}
use benchmark_platform.Prelude.Words.{u64}
use benchmark_platform.Prelude.Threads.{put}

-- Where a thread stands; `gen` is the local variable of `arrive` and of its caller.
pub data Pc : Type 0 where
  idle : Pc  -- before a call, or behind it
  loaded : (gen : ℕ) → Pc  -- before the `fetch_sub`
  last : (gen : ℕ) → Pc  -- the last arriver, before the completion function
  completed : (gen : ℕ) → Pc  -- before `count_.store(n_)`
  refilled : (gen : ℕ) → Pc  -- before `generation_.fetch_add(1)`
  waiting : (gen : ℕ) → Pc  -- the `while`

-- The barrier's atomics. The other two fields are not in the source: they count how often the
-- completion function has run, and the phases that have ended.
pub record SpinBarrier : Type 0 where
  pub count : ℕ
  pub generation : ℕ
  pub completions : ℕ
  pub phase : ℕ

-- A thread, with the number of calls that it has returned from.
pub record Thread : Type 0 where
  pub pc : Pc
  pub rounds : ℕ

-- One step of a thread at a barrier for `n` participants.
pub data Move (n : ℕ) (b : SpinBarrier) (r : ℕ) : Pc → SpinBarrier → Thread → Type 0 where
  load : Move n b r idle b (record { pc = loaded b.generation; rounds = r })
  arrive_last :
      {g : ℕ}
      → b.count ≡ 1
      → Move n b r
          (loaded g)
          (record b { count = b.count - 1 })
          (record { pc = last g; rounds = r })
  arrive_early :
      {g : ℕ}
      → b.count ≢ 1
      → Move n b r
          (loaded g)
          (record b { count = b.count - 1 })
          (record { pc = waiting g; rounds = r })
  complete :
      {g : ℕ}
      → Move n b r
          (last g)
          (record b { completions = b.completions + 1 })
          (record { pc = completed g; rounds = r })
  refill :
      {g : ℕ}
      → Move n b r (completed g) (record b { count = n }) (record { pc = refilled g; rounds = r })
  bump :
      {g : ℕ}
      → Move n b r
          (refilled g)
          (record b { generation = u64 (b.generation + 1); phase = b.phase + 1 })
          (record { pc = waiting g; rounds = r })
  spin :
      {g : ℕ} → b.generation ≡ g → Move n b r (waiting g) b (record { pc = waiting g; rounds = r })
  leave :
      {g : ℕ} → b.generation ≢ g → Move n b r (waiting g) b (record { pc = idle; rounds = r + 1 })

pub record System : Type 0 where
  pub barrier : SpinBarrier
  pub thread : ℕ → Thread

-- The constructor of `SpinBarrier`, with no thread at the barrier.
abbrev pub init : ℕ → System
init n = record {
  barrier = record { count = n; generation = 0; completions = 0; phase = 0 };
  thread = λ _. record { pc = idle; rounds = 0 };
}

pub data Step (n : ℕ) (s : System) : System → Type 0 where
  pick :
      (i : ℕ) {b : SpinBarrier} {t : Thread}
      → i < n
      → Move n s.barrier (s.thread i).rounds (s.thread i).pc b t
      → Step n s (record { barrier = b; thread = put i t s.thread })

pub data Reach (n : ℕ) : System → Type 0 where
  start : Reach n (init n)
  later : {s t : System} → Reach n s → Step n s t → Reach n t
