-- ===== src/Barrier/Fresh.antt =====
-- The threads and the barrier at the beginning of a phase.
use benchmark_platform.Prelude.{ℕ, ◌+◌, ◌<◌, ◌≡◌, inr, refl, arith}
use benchmark_platform.Prelude.Words.{u64}
use benchmark_platform.Prelude.Threads.{tally, tally_zero}
use benchmark_platform.Barrier.{
  Pc, idle, loaded, last, completed, refilled, waiting, SpinBarrier, Thread,
}
use benchmark_platform.Barrier.Invariant.{
  arrived_at, arrived, ending_at, ending, has_refilled, has_completed, Fits, Inv,
}

-- A thread of which nothing is counted in the phase `p`.
pub record Fresh (p : ℕ) (x : Thread) : Type 0 where
  pub fits : Fits p x.pc x.rounds
  pub no_ending : ending x ≡ 0
  pub no_arrived : arrived p x ≡ 0
  pub no_refilled : has_refilled x ≡ 0
  pub no_completed : has_completed x ≡ 0

-- A thread that waits in a phase is fresh in the next one.
pub wait-Fresh :
    (p g r : ℕ) → g ≡ u64 r → r ≡ p → Fresh (p + 1) (record { pc = waiting g; rounds = r })
wait-Fresh p g r eg er = record {
  fits = (eg, inr (omega arith));
  no_ending = refl;
  no_arrived = ground arith;
  no_refilled = refl;
  no_completed = refl;
}

pub arrived-Fresh :
    (p : ℕ) (c : Pc) (r : ℕ)
    → Fits p c r
    → arrived_at p c r ≡ 1
    → ending_at c ≡ 0
    → Fresh (p + 1) (record { pc = c; rounds = r })
arrived-Fresh p (waiting g) r f a e = wait-Fresh p g r (f.0) (ground arith)
arrived-Fresh p idle r f a e = absurd (omega arith)
arrived-Fresh p (loaded g) r f a e = absurd (omega arith)
arrived-Fresh p (last g) r f a e = absurd (omega arith)
arrived-Fresh p (completed g) r f a e = absurd (omega arith)
arrived-Fresh p (refilled g) r f a e = absurd (omega arith)

-- The barrier when all threads are fresh.
pub Fresh-Inv :
    {n : ℕ} {b : SpinBarrier} {t : ℕ → Thread}
    → ((j : ℕ) → j < n → Fresh b.phase (t j))
    → b.generation ≡ u64 b.phase
    → 0 < n
    → b.count ≡ n
    → b.completions ≡ b.phase
    → Inv n b t
Fresh-Inv {n} {b} {t} fr g h c d =
    let e : tally n (λ j. ending (t j)) ≡ 0 = tally_zero n _ (λ j p. (fr j p).no_ending) in
    let a : tally n (λ j. arrived b.phase (t j)) ≡ 0 =
      tally_zero n _ (λ j p. (fr j p).no_arrived) in
    let rf : tally n (λ j. has_refilled (t j)) ≡ 0 = tally_zero n _ (λ j p. (fr j p).no_refilled) in
    let co : tally n (λ j. has_completed (t j)) ≡ 0 =
      tally_zero n _ (λ j p. (fr j p).no_completed) in
    record {
      fits = λ j p. (fr j p).fits;
      gen = g;
      one_ending = omega arith;
      all_arrived = λ p. absurd (omega arith);
      room = λ p. omega arith;
      balance = λ p. omega arith;
      full = λ p. absurd (omega arith);
      done = omega arith;
    }
