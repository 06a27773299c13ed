-- ===== src/Barrier/Moves.antt =====
-- The steps of the threads, and the invariant.
use benchmark_platform.Prelude.{
  ℕ, ◌+◌, ◌≤◌, ◌<◌, ◌≡◌, inl, inr, refl, sym, ◌∙◌, subst, ap, arith, ◌==◌, false, Bool-cases,
  ==_iff,
}
use benchmark_platform.Prelude.Words.{u64}
use benchmark_platform.Prelude.Threads.{
  put, tally, le-tally, tally_full, tally_le, tally_mono, tally_two,
}
use benchmark_platform.Barrier.{
  Pc, refilled, waiting, SpinBarrier, Thread, Move, load, arrive_last, arrive_early, complete,
  refill, bump, spin, leave, System, pick, Reach, start, later,
}
use benchmark_platform.Barrier.Invariant.{
  arrived_at, arrived, ending_at, ending, refilled_at, has_refilled, completed_at, has_completed,
  Fits, Inv, Inv-init,
}
use benchmark_platform.Barrier.Counts.{tally-put, arrived-le, refilled-le, completed-le}
use benchmark_platform.Barrier.Fresh.{Fresh, wait-Fresh, arrived-Fresh, Fresh-Inv}

module _ {n : ℕ} {b : SpinBarrier} {t : ℕ → Thread} (inv : Inv n b t) (i : ℕ) (lt : i < n) where
  open inv use {fits, gen, one_ending, all_arrived, room, balance, full, done}

  abbrev E : ℕ
  E = tally n (λ j. ending (t j))

  abbrev A : ℕ
  A = tally n (λ j. arrived b.phase (t j))

  abbrev R : ℕ
  R = tally n (λ j. has_refilled (t j))

  abbrev C : ℕ
  C = tally n (λ j. has_completed (t j))

  -- While a thread has not arrived, no thread is ending the phase.
  not_ending : arrived b.phase (t i) ≡ 0 → E ≡ 0
  not_ending z = elim (Bool-cases (E == 0)) [
    | inl e ↦ (==_iff E 0).0 e
    | inr ne ↦ absurd (
        omega (
          arith,
          z,
          tally_full n (λ j. arrived b.phase (t j)) i (λ j. arrived-le b.phase (t j))
              (all_arrived (ground arith)) lt,
        ))
  ]

  -- The sums before and after thread `i`, at `p` with `r` rounds, has become `u` in the same phase.
  record Sums (p : Pc) (r : ℕ) (u : Thread) : Type 0 where
    mine : Fits b.phase p r
    e : tally n (λ j. ending (put i u t j)) + ending_at p ≡ E + ending u
    a :
        tally n (λ j. arrived b.phase (put i u t j)) + arrived_at b.phase p r
        ≡ A + arrived b.phase u
    rf : tally n (λ j. has_refilled (put i u t j)) + refilled_at p ≡ R + has_refilled u
    c : tally n (λ j. has_completed (put i u t j)) + completed_at p ≡ C + has_completed u
    before : arrived_at b.phase p r ≡ 0 → E ≡ 0
    e_le : ending_at p ≤ E
    rf_le : refilled_at p ≤ R
    rf_e : R ≤ E
    c_e : C ≤ E
    a_le : A ≤ n
    a'_le : tally n (λ j. arrived b.phase (put i u t j)) ≤ n

  sums : (u : Thread) → Sums (t i).pc (t i).rounds u
  sums u = record {
    mine = fits i lt;
    e = tally-put n i ending t u lt;
    a = tally-put n i (arrived b.phase) t u lt;
    rf = tally-put n i has_refilled t u lt;
    c = tally-put n i has_completed t u lt;
    before = not_ending;
    e_le = le-tally n i (λ j. ending (t j)) lt;
    rf_le = le-tally n i (λ j. has_refilled (t j)) lt;
    rf_e = tally_mono n _ _ (λ j. refilled-le (t j));
    c_e = tally_mono n _ _ (λ j. completed-le (t j));
    a_le = tally_le n _ (λ j. arrived-le b.phase (t j));
    a'_le = tally_le n _ (λ j. arrived-le b.phase (put i u t j));
  }

  -- The invariant after a step that stays in the phase, but for the other threads.
  record Kept (b' : SpinBarrier) (u : Thread) : Type 0 where
    same : b'.phase ≡ b.phase
    mine' : Fits b.phase u.pc u.rounds
    gen' : b'.generation ≡ u64 b.phase
    one' : tally n (λ j. ending (put i u t j)) ≤ 1
    all' :
        0 < tally n (λ j. ending (put i u t j)) → tally n (λ j. arrived b.phase (put i u t j)) ≡ n
    room' : tally n (λ j. ending (put i u t j)) ≡ 0 → 0 < b'.count
    balance' :
        tally n (λ j. has_refilled (put i u t j)) ≡ 0
        → b'.count + tally n (λ j. arrived b.phase (put i u t j)) ≡ n
    full' : 0 < tally n (λ j. has_refilled (put i u t j)) → b'.count ≡ n
    done' : b'.completions ≡ b.phase + tally n (λ j. has_completed (put i u t j))

  abbrev Stays : Pc → Type 0
  Stays (refilled g) = ⊥
  Stays _ = Unit

  Move-Kept :
      {p : Pc} {r : ℕ} {b' : SpinBarrier} {u : Thread}
      → Move n b r p b' u
      → Stays p
      → Sums p r u
      → Kept b' u
  Move-Kept load s m = record {
    same = refl;
    mine' = (m.mine, gen);
    gen' = gen;
    one' = ground arith;
    all' = λ h'. ground arith;
    room' = λ h'. ground arith;
    balance' = λ h'. ground arith;
    full' = λ h'. ground arith;
    done' = ground arith;
  }
  Move-Kept (arrive_last h) s m = record {
    same = refl;
    mine' = m.mine;
    gen' = gen;
    one' = ground arith;
    all' = λ h'. ground arith;
    room' = λ h'. ground arith;
    balance' = λ h'. ground arith;
    full' = λ h'. ground arith;
    done' = ground arith;
  }
  Move-Kept (arrive_early h) s m = record {
    same = refl;
    mine' = (m.mine.1 ∙ ap u64 (sym (m.mine.0)), inl (m.mine.0));
    gen' = gen;
    one' = ground arith;
    all' = λ h'. ground arith;
    room' = λ h'. ground arith;
    balance' = λ h'. ground arith;
    full' = λ h'. ground arith;
    done' = ground arith;
  }
  Move-Kept complete s m = record {
    same = refl;
    mine' = m.mine;
    gen' = gen;
    one' = ground arith;
    all' = λ h'. ground arith;
    room' = λ h'. ground arith;
    balance' = λ h'. ground arith;
    full' = λ h'. ground arith;
    done' = ground arith;
  }
  Move-Kept refill s m = record {
    same = refl;
    mine' = m.mine;
    gen' = gen;
    one' = ground arith;
    all' = λ h'. ground arith;
    room' = λ h'. ground arith;
    balance' = λ h'. ground arith;
    full' = λ h'. ground arith;
    done' = ground arith;
  }
  Move-Kept (spin h) s m = record {
    same = refl;
    mine' = m.mine;
    gen' = gen;
    one' = ground arith;
    all' = λ h'. ground arith;
    room' = λ h'. ground arith;
    balance' = λ h'. ground arith;
    full' = λ h'. ground arith;
    done' = ground arith;
  }
  Move-Kept (leave h) s m = record {
    same = refl;
    mine' = ground arith;
    gen' = gen;
    one' = ground arith;
    all' = λ h'. ground arith;
    room' = λ h'. ground arith;
    balance' = λ h'. ground arith;
    full' = λ h'. ground arith;
    done' = ground arith;
  }
  Move-Kept bump s m = absurd s

  Kept-Inv : {b' : SpinBarrier} {u : Thread} → Kept b' u → Inv n b' (put i u t)
  Kept-Inv {b'} {u} k =
      subst (λ q. Inv n (record b' { phase = q }) (put i u t)) (sym k.same)
        (record {
          fits = λ j p. elim (Bool-cases (j == i)) [
            | inl e ↦ rw e k.mine'
            | inr ne ↦ rw ne (fits j p)
          ];
          gen = k.gen';
          one_ending = k.one';
          all_arrived = k.all';
          room = k.room';
          balance = k.balance';
          full = k.full';
          done = k.done';
        })

  others-Fresh : 1 ≤ ending (t i) → (j : ℕ) → j < n → (j == i) ≡ false → Fresh (b.phase + 1) (t j)
  others-Fresh h j p ne =
      arrived-Fresh b.phase (t j).pc (t j).rounds (fits j p)
        (tally_full n (λ k. arrived b.phase (t k)) j (λ k. arrived-le b.phase (t k))
          (all_arrived (omega (arith, le-tally n i (λ k. ending (t k)) lt))) p)
        (omega (arith, h, one_ending, tally_two n i j (λ k. ending (t k)) lt p ne))

  bump-Inv :
      (g r : ℕ)
      → Sums (refilled g) r (record { pc = waiting g; rounds = r })
      → 1 ≤ ending (t i)
      → Inv n
          (record b { generation = u64 (b.generation + 1); phase = b.phase + 1 })
          (put i (record { pc = waiting g; rounds = r }) t)
  bump-Inv g r m h =
      Fresh-Inv
        (λ j p. elim (Bool-cases (j == i)) [
          | inl e ↦ rw e (wait-Fresh b.phase g r (m.mine.1 ∙ ap u64 (sym (m.mine.0))) (m.mine.0))
          | inr ne ↦ rw ne (others-Fresh h j p ne)
        ])
        (omega (arith, gen)) (omega arith) (full (omega (arith, m.rf_le))) (ground arith)

  Move-Inv :
      {p : Pc} {r : ℕ} {b' : SpinBarrier} {u : Thread}
      → Move n b r p b' u
      → ending_at p ≡ ending (t i)
      → Sums p r u
      → Inv n b' (put i u t)
  Move-Inv {p = refilled g} bump h m = bump-Inv g _ m (omega (arith, h))
  Move-Inv load h m = Kept-Inv (Move-Kept load tt m)
  Move-Inv (arrive_last z) h m = Kept-Inv (Move-Kept (arrive_last z) tt m)
  Move-Inv (arrive_early z) h m = Kept-Inv (Move-Kept (arrive_early z) tt m)
  Move-Inv complete h m = Kept-Inv (Move-Kept complete tt m)
  Move-Inv refill h m = Kept-Inv (Move-Kept refill tt m)
  Move-Inv (spin z) h m = Kept-Inv (Move-Kept (spin z) tt m)
  Move-Inv (leave z) h m = Kept-Inv (Move-Kept (leave z) tt m)

-- Every state that the threads reach is well-formed.
pub Reach-Inv : {n : ℕ} {s : System} → 0 < n → Reach n s → Inv n s.barrier s.thread
Reach-Inv {n} h start = Inv-init n h
Reach-Inv h (later {s} r (pick i lt m)) =
    Move-Inv (Reach-Inv h r) i lt m refl (sums (Reach-Inv h r) i lt _)
