-- ===== src/Barrier/Safety.antt =====
-- What the barrier promises to the threads that come to it.
use benchmark_platform.Prelude.{
  ℕ, suc, ◌+◌, ◌≤◌, ◌<◌, ◌≡◌, ◌≢◌, ◌⊎◌, inl, inr, refl, sym, ◌∙◌, ap, arith, ◌==◌, Bool, true,
  false, Bool-cases, ==_iff,
}
use benchmark_platform.Prelude.Words.{u64}
use benchmark_platform.Prelude.Threads.{
  tally, le-tally, tally_full, tally_some, tally_hole, tally_two, tally_mono,
}
use benchmark_platform.Barrier.{
  Pc, idle, loaded, last, completed, refilled, waiting, SpinBarrier, Thread, System, Reach,
}
use benchmark_platform.Barrier.Invariant.{
  arrived_at, arrived, ending_at, ending, has_refilled, has_completed, Fits, Inv,
}
use benchmark_platform.Barrier.Counts.{arrived-le, refilled-le, completed-le}
use benchmark_platform.Barrier.Moves.{Reach-Inv}

-- How often a thread has arrived: its `fetch_sub`s so far.
abbrev pub arrivals_at : Pc → ℕ → ℕ
arrivals_at idle r = r
arrivals_at (loaded g) r = r
arrivals_at _ r = suc r

abbrev pub arrivals : Thread → ℕ
arrivals t = arrivals_at t.pc t.rounds

-- A thread whose next poll of `generation_` keeps it in the `while`.
abbrev pub blocked_at : SpinBarrier → Pc → Bool
blocked_at b (waiting g) = b.generation == g
blocked_at b _ = false

abbrev pub blocked : SpinBarrier → Thread → Bool
blocked b t = blocked_at b t.pc

Fits-rounds : (p : ℕ) (c : Pc) (r : ℕ) → Fits p c r → r ≤ p
Fits-rounds p c r f = ground arith

Fits-arrivals : (p : ℕ) (c : Pc) (r : ℕ) → Fits p c r → p + arrived_at p c r ≤ arrivals_at c r
Fits-arrivals p c r f = ground arith

completions_bound :
    {n : ℕ} {b : SpinBarrier} {t : ℕ → Thread}
    → Inv n b t
    → (j : ℕ) → j < n
    → b.phase ≤ b.completions × b.completions ≤ b.phase + arrived b.phase (t j)
completions_bound {n} {b} {t} inv j p =
    let c_e : tally n (λ k. has_completed (t k)) ≤ tally n (λ k. ending (t k)) =
      tally_mono n _ _ (λ k. completed-le (t k)) in
    elim (Bool-cases (tally n (λ k. ending (t k)) == 0)) [
      | inl z ↦ (omega (arith, inv.done), ground (arith, inv.done))
      | inr nz ↦
          let all : arrived b.phase (t j) ≡ 1 =
            tally_full n (λ k. arrived b.phase (t k)) j (λ k. arrived-le b.phase (t k))
              (inv.all_arrived (ground arith)) p in
          (omega (arith, inv.done), ground (arith, inv.done, inv.one_ending))
    ]

-- In every interleaving of the threads at the barrier, no thread returns from its call number k
-- before the completion function has run k times, and the completion function does not run for
-- the k-th time before every thread has arrived k times.
pub Reach-ordered :
    (n : ℕ) (s : System) (i j : ℕ)
    → 0 < n
    → Reach n s
    → i < n
    → j < n
    → (s.thread i).rounds ≤ s.barrier.completions × s.barrier.completions ≤ arrivals (s.thread j)
Reach-ordered n s i j h r li lj =
    let inv : Inv n s.barrier s.thread = Reach-Inv h r in
    let ti : Thread = s.thread i in
    let tj : Thread = s.thread j in
    let run = completions_bound inv j lj in
    (
      omega (arith, run.0, Fits-rounds s.barrier.phase ti.pc ti.rounds (inv.fits i li)),
      omega (arith, run.1, Fits-arrivals s.barrier.phase tj.pc tj.rounds (inv.fits j lj)),
    )

-- A thread that has arrived and is not ending the phase is blocked.
arrived-blocked :
    (b : SpinBarrier) (c : Pc) (r : ℕ)
    → b.generation ≡ u64 b.phase
    → Fits b.phase c r
    → arrived_at b.phase c r ≡ 1
    → ending_at c ≡ 0
    → blocked_at b c ≡ true
arrived-blocked b (waiting g) r gen f a e =
    let here : r ≡ b.phase = ground arith in
    (==_iff b.generation g).1 (gen ∙ ap u64 (sym here) ∙ sym (f.0))
arrived-blocked b idle r gen f a e = absurd (omega arith)
arrived-blocked b (loaded g) r gen f a e = absurd (omega arith)
arrived-blocked b (last g) r gen f a e = absurd (omega arith)
arrived-blocked b (completed g) r gen f a e = absurd (omega arith)
arrived-blocked b (refilled g) r gen f a e = absurd (omega arith)

-- A thread that has not arrived, or that is ending the phase, is not blocked.
free-blocked :
    (b : SpinBarrier) (c : Pc) (r : ℕ)
    → b.generation ≡ u64 b.phase
    → Fits b.phase c r
    → (arrived_at b.phase c r ≡ 0) ⊎ (0 < ending_at c)
    → blocked_at b c ≡ false
free-blocked b (waiting g) r gen f (inl z) = elim (Bool-cases (b.generation == g)) [
  | inl e ↦
      let same : b.generation ≡ g = (==_iff b.generation g).0 e in
      let past : r + 1 ≡ b.phase = ground arith in absurd (omega (arith, f.0))
  | inr ne ↦ ne
]
free-blocked b (waiting g) r gen f (inr z) = absurd (omega arith)
free-blocked b idle r gen f z = refl
free-blocked b (loaded g) r gen f z = refl
free-blocked b (last g) r gen f z = refl
free-blocked b (completed g) r gen f z = refl
free-blocked b (refilled g) r gen f z = refl

-- From the last arrival until the phase ends, every thread but the last arriver is blocked in its
-- loop, in every reachable state.
pub Reach-exclusive :
    (n : ℕ) (s : System) (i j : ℕ)
    → 0 < n
    → Reach n s
    → i < n
    → j < n
    → i ≢ j
    → ending (s.thread i) ≡ 1
    → blocked s.barrier (s.thread j) ≡ true
Reach-exclusive n s i j h r li lj ne e =
    let inv : Inv n s.barrier s.thread = Reach-Inv h r in
    let other : (j == i) ≡ false = ground (arith, ==_iff j i) in
    arrived-blocked s.barrier (s.thread j).pc (s.thread j).rounds inv.gen (inv.fits j lj)
      (tally_full n (λ k. arrived s.barrier.phase (s.thread k)) j
        (λ k. arrived-le s.barrier.phase (s.thread k))
        (inv.all_arrived (omega (arith, le-tally n i (λ k. ending (s.thread k)) li))) lj)
      (omega (arith, e, inv.one_ending, tally_two n i j (λ k. ending (s.thread k)) li lj other))

-- In every reachable state of the barrier some thread is not blocked in its loop.
pub Reach-live :
    (n : ℕ) (s : System)
    → 0 < n
    → Reach n s
    → (i : ℕ) × i < n × blocked s.barrier (s.thread i) ≡ false
Reach-live n s h r =
    let inv : Inv n s.barrier s.thread = Reach-Inv h r in
    elim (Bool-cases (tally n (λ k. ending (s.thread k)) == 0)) [
      | inl z ↦
          let none_ending : tally n (λ k. ending (s.thread k)) ≡ 0 = ground arith in
          let none_refilled : tally n (λ k. has_refilled (s.thread k)) ≡ 0 =
            omega (arith, none_ending, tally_mono n _ _ (λ k. refilled-le (s.thread k))) in
          let few : tally n (λ k. arrived s.barrier.phase (s.thread k)) < n =
            omega (arith, inv.balance none_refilled, inv.room none_ending) in
          let at : (i : ℕ) × i < n × arrived s.barrier.phase (s.thread i) ≡ 0 =
            tally_hole n (λ k. arrived s.barrier.phase (s.thread k))
              (λ k. arrived-le s.barrier.phase (s.thread k)) few in
          (at.0, at.1, free-blocked s.barrier _ _ inv.gen (inv.fits at.0 at.1) (inl at.2))
      | inr nz ↦
          let at : (i : ℕ) × i < n × 0 < ending (s.thread i) =
            tally_some n (λ k. ending (s.thread k)) (ground arith) in
          (at.0, at.1, free-blocked s.barrier _ _ inv.gen (inv.fits at.0 at.1) (inr at.2))
    ]
