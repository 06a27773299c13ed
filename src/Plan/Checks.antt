-- ===== src/Plan/Checks.antt =====
-- The checks of the arguments of a run.
use benchmark_platform.Prelude.{
  ◌≡◌, ◌↔◌, refl, sym, subst, arith, Bool, true, false, none, some, List, [], ◌∷◌, All, Bool-cases,
  inl, inr, Option-cases,
}
use benchmark_platform.Prelude.Int.{ℤ, pos, negsuc}
use benchmark_platform.Plan.Specs.{
  Args, BadArg, AtLeast, Accepts, Violates, Verdict, any_of, below_one, below_zero, check_args,
}

below_one-AtLeast : (z : ℤ) → below_one z ≡ false → AtLeast 1 z
unfolding below_one
below_one-AtLeast (pos n) e = ground arith
below_one-AtLeast (negsuc n) e = absurd (ground arith)

AtLeast-below_one : (z : ℤ) → AtLeast 1 z → below_one z ≡ false
unfolding below_one
AtLeast-below_one (pos n) h = ground arith
AtLeast-below_one (negsuc n) h = absurd h

below_zero-AtLeast : (z : ℤ) → below_zero z ≡ false → AtLeast 0 z
unfolding below_zero
below_zero-AtLeast (pos n) e = omega arith
below_zero-AtLeast (negsuc n) e = absurd (ground arith)

AtLeast-below_zero : (z : ℤ) → AtLeast 0 z → below_zero z ≡ false
unfolding below_zero
AtLeast-below_zero (pos n) h = refl
AtLeast-below_zero (negsuc n) h = absurd h

any_of-All :
    (bad : ℤ → Bool) (Good : ℤ → Type 0)
    → ((z : ℤ) → bad z ≡ false → Good z)
    → (zs : List ℤ) → any_of bad zs ≡ false
    → All Good zs
unfolding any_of
any_of-All bad Good good [] e = tt
any_of-All bad Good good (z ∷ zs) e = elim (Bool-cases (bad z)) [
  | inl t ↦ absurd (ground arith)
  | inr f ↦ (good z f, any_of-All bad Good good zs (ground arith))
]

All-any_of :
    (bad : ℤ → Bool) (Good : ℤ → Type 0)
    → ((z : ℤ) → Good z → bad z ≡ false)
    → (zs : List ℤ) → All Good zs
    → any_of bad zs ≡ false
unfolding any_of
All-any_of bad Good fine [] h = refl
All-any_of bad Good fine (z ∷ zs) h = rw (fine z h.0) (All-any_of bad Good fine zs h.1)

-- A test that is true refutes what makes it false.
refutes : {P : Type 0} (b : Bool) → (P → b ≡ false) → b ≡ true → ¬ P
refutes b h e p = cc (h p, e)

Accepts-check_args : (a : Args) → Accepts a → check_args a ≡ none
unfolding check_args
Accepts-check_args a h =
    rw
      (
        check_args,
        AtLeast-below_one a.trials h.trials,
        AtLeast-below_zero a.warmup_trials h.warmup_trials,
        AtLeast-below_zero a.warmup_ms h.warmup_ms,
        AtLeast-below_one a.trial_ms h.trial_ms,
        h.finite,
        h.not_negative,
        All-any_of below_one (AtLeast 1) AtLeast-below_one a.thread_counts h.thread_counts,
        All-any_of below_zero (AtLeast 0) AtLeast-below_zero a.cpus h.cpus,
      )
      refl

check_args-Accepts : (a : Args) → check_args a ≡ none → Accepts a
unfolding check_args
check_args-Accepts a e = record {
  trials = below_one-AtLeast a.trials (ground arith);
  warmup_trials = below_zero-AtLeast a.warmup_trials (ground arith);
  warmup_ms = below_zero-AtLeast a.warmup_ms (ground arith);
  trial_ms = below_one-AtLeast a.trial_ms (ground arith);
  finite = ground arith;
  not_negative = ground arith;
  thread_counts = any_of-All below_one (AtLeast 1) below_one-AtLeast a.thread_counts (ground arith);
  cpus = any_of-All below_zero (AtLeast 0) below_zero-AtLeast a.cpus (ground arith);
}

check_args-Violates : (a : Args) (bad : BadArg) → check_args a ≡ some bad → Violates a bad
unfolding check_args
check_args-Violates a BadArg.bad_trials e =
    refutes (below_one a.trials) (AtLeast-below_one a.trials) (ground arith)
check_args-Violates a BadArg.bad_warmup_trials e =
    refutes (below_zero a.warmup_trials) (AtLeast-below_zero a.warmup_trials) (ground arith)
check_args-Violates a BadArg.bad_warmup_ms e =
    refutes (below_zero a.warmup_ms) (AtLeast-below_zero a.warmup_ms) (ground arith)
check_args-Violates a BadArg.bad_trial_ms e =
    refutes (below_one a.trial_ms) (AtLeast-below_one a.trial_ms) (ground arith)
check_args-Violates a BadArg.bad_max_seconds e = ground arith
check_args-Violates a BadArg.bad_thread_count e =
    refutes (any_of below_one a.thread_counts)
      (All-any_of below_one (AtLeast 1) AtLeast-below_one a.thread_counts) (ground arith)
check_args-Violates a BadArg.bad_cpu e =
    refutes (any_of below_zero a.cpus) (All-any_of below_zero (AtLeast 0) AtLeast-below_zero a.cpus)
      (ground arith)

-- The arguments are accepted exactly if there is at least one trial, of at least a millisecond,
-- the bounds of the warm-up and the CPU numbers are not negative, every number of threads is at
-- least one, and the time limit is finite and not negative; an exception names one of these that
-- does not hold.
pub check_args_iff : (a : Args) → ((check_args a ≡ none) ↔ Accepts a) × Verdict a (check_args a)
check_args_iff a = (
  (check_args-Accepts a, Accepts-check_args a),
  elim (Option-cases (check_args a)) [
    | inl e ↦ subst (Verdict a) (sym e) (check_args-Accepts a e)
    | inr (bad, e) ↦ subst (Verdict a) (sym e) (check_args-Violates a bad e)
  ],
)
