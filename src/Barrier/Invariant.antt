-- ===== src/Barrier/Invariant.antt =====
-- The invariant of the states of the barrier.
use benchmark_platform.Prelude.{ℕ, ◌+◌, ◌≤◌, ◌<◌, ◌≡◌, ◌⊎◌, refl, arith, ◌==◌, if◌then◌else◌}
use benchmark_platform.Prelude.Words.{u64}
use benchmark_platform.Prelude.Threads.{tally, tally_zero}
use benchmark_platform.Barrier.{
  Pc, idle, loaded, last, completed, refilled, waiting, SpinBarrier, Thread, init,
}

-- A thread counts as arrived in phase `p` from its `fetch_sub` until the phase ends.
abbrev pub arrived_at : ℕ → Pc → ℕ → ℕ
arrived_at p idle r = 0
arrived_at p (loaded g) r = 0
arrived_at p (waiting g) r = if r == p then 1 else 0
arrived_at p _ r = 1

abbrev pub arrived : ℕ → Thread → ℕ
arrived p t = arrived_at p t.pc t.rounds

-- The thread that arrived last, until it ends the phase.
abbrev pub ending_at : Pc → ℕ
ending_at (last g) = 1
ending_at (completed g) = 1
ending_at (refilled g) = 1
ending_at _ = 0

abbrev pub ending : Thread → ℕ
ending t = ending_at t.pc

abbrev pub refilled_at : Pc → ℕ
refilled_at (refilled g) = 1
refilled_at _ = 0

abbrev pub has_refilled : Thread → ℕ
has_refilled t = refilled_at t.pc

abbrev pub completed_at : Pc → ℕ
completed_at (completed g) = 1
completed_at (refilled g) = 1
completed_at _ = 0

abbrev pub has_completed : Thread → ℕ
has_completed t = completed_at t.pc

-- What a thread's place says of the phase `p` and of its own calls.
abbrev pub Fits : ℕ → Pc → ℕ → Type 0
Fits p idle r = r ≡ p
Fits p (waiting g) r = (g ≡ u64 r) × ((r ≡ p) ⊎ (r + 1 ≡ p))
Fits p (loaded g) r = (r ≡ p) × (g ≡ u64 p)
Fits p (last g) r = (r ≡ p) × (g ≡ u64 p)
Fits p (completed g) r = (r ≡ p) × (g ≡ u64 p)
Fits p (refilled g) r = (r ≡ p) × (g ≡ u64 p)

pub record Inv (n : ℕ) (b : SpinBarrier) (t : ℕ → Thread) : Type 0 where
  pub fits : (i : ℕ) → i < n → Fits b.phase (t i).pc (t i).rounds
  pub gen : b.generation ≡ u64 b.phase
  pub one_ending : tally n (λ j. ending (t j)) ≤ 1
  pub all_arrived : 0 < tally n (λ j. ending (t j)) → tally n (λ j. arrived b.phase (t j)) ≡ n
  pub room : tally n (λ j. ending (t j)) ≡ 0 → 0 < b.count
  pub balance :
      tally n (λ j. has_refilled (t j)) ≡ 0 → b.count + tally n (λ j. arrived b.phase (t j)) ≡ n
  pub full : 0 < tally n (λ j. has_refilled (t j)) → b.count ≡ n
  pub done : b.completions ≡ b.phase + tally n (λ j. has_completed (t j))

pub Inv-init : (n : ℕ) → 0 < n → Inv n (init n).barrier (init n).thread
Inv-init n h = record {
  fits = λ i lt. refl;
  gen = refl;
  one_ending = omega (arith, tally_zero n (λ j. 0) (λ j p. refl));
  all_arrived = λ p. absurd (omega (arith, tally_zero n (λ j. 0) (λ j p. refl)));
  room = λ _. h;
  balance = λ _. omega (arith, tally_zero n (λ j. 0) (λ j p. refl));
  full = λ p. absurd (omega (arith, tally_zero n (λ j. 0) (λ j p. refl)));
  done = omega (arith, tally_zero n (λ j. 0) (λ j p. refl));
}
