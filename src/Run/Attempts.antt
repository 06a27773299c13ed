-- ===== src/Run/Attempts.antt =====
-- `run_config`: which attempt at a configuration is kept.
use benchmark_platform.Prelude.{
  ℕ, suc, ◌+◌, ◌<◌, ◌≤◌, ◌≡◌, ◌⊎◌, refl, sym, ap, subst, ◌∙◌, arith, Bool, true, false, ◌&&◌, List,
  [], ◌∷◌, length, Bool-cases, inl, inr, Option, some, All, get_elem?,
}
use benchmark_platform.Prelude.Double.{Double}
use benchmark_platform.Session.{Config, ConfigSpec, Session, new_session}
use benchmark_platform.Run.{
  StopReason, ClockCheck, Limits, Attempt, Ending, trial_loop, canary_clean, room_to_retry,
  is_not_stopped, retries, run_config,
}

module _ (d : Double) (at_most : d.D → d.D → Bool) (rank_of : ℕ → ℕ) (cfg : Config)
    (limits : Limits) (canary_retries : ℕ) (spec : ConfigSpec) where
  open d use {D}

  abbrev run : ℕ → List (Attempt D) → Option (Ending D)
  run n attempts = run_config d at_most rank_of cfg limits canary_retries spec n attempts

  -- The workers of the attempt set up, and its trials end.
  pub record Ends (a : Attempt D) : Type 0 where
    pub set_up : a.set_up ≡ true
    pub session : Session D
    pub stop : StopReason
    pub loop :
        trial_loop d rank_of cfg limits spec a.script (new_session spec) ≡ some (session, stop)

  -- `r` is what the session of one of the attempts emits after `n` attempts before them: it is no
  -- later than the last that is allowed, and it is that one, or there is no room for another, or the
  -- clock was clean before it and also after it unless the run was stopped.
  pub record Keeps (n : ℕ) (attempts : List (Attempt D)) (r : Option (Ending D)) : Type 0 where
    pub index : ℕ
    pub attempt : Attempt D
    pub session : Session D
    pub stop : StopReason
    pub at : get_elem? attempts index ≡ some attempt
    pub loop :
        trial_loop d rank_of cfg limits spec attempt.script (new_session spec)
        ≡ some (session, stop)
    pub result :
        r
        ≡ some (Ending.emits session attempt.canary_start attempt.canary_end (suc (n + index)) stop)
    pub allowed : n + index ≤ canary_retries
    pub accepted :
        (n + index ≡ canary_retries)
        ⊎ (room_to_retry limits.deadline attempt.now ≡ false)
        ⊎ ((canary_clean d at_most attempt.canary_start ≡ true)
            × ((canary_clean d at_most attempt.canary_end ≡ true) ⊎ (is_not_stopped stop ≡ false)))

  not_retried :
      (n now : ℕ) (c1 c2 : ClockCheck D) (stop : StopReason)
      → n ≤ canary_retries
      → retries d at_most limits canary_retries (suc n) now c1 ≡ false
      → (retries d at_most limits canary_retries (suc n) now c2 && is_not_stopped stop) ≡ false
      → (n ≡ canary_retries)
        ⊎ (room_to_retry limits.deadline now ≡ false)
        ⊎ ((canary_clean d at_most c1 ≡ true)
            × ((canary_clean d at_most c2 ≡ true) ⊎ (is_not_stopped stop ≡ false)))
  unfolding retries
  not_retried n now c1 c2 stop le e1 e2 = ground arith

  retried :
      (n now : ℕ) (c : ClockCheck D)
      → retries d at_most limits canary_retries (suc n) now c ≡ true
      → suc n ≤ canary_retries
  unfolding retries
  retried n now c e = ground arith

  Keeps-again :
      (n : ℕ) (a : Attempt D) (attempts : List (Attempt D)) (r : Option (Ending D))
      → Keeps (suc n) attempts r
      → Keeps n (a ∷ attempts) r
  Keeps-again n a attempts r k =
      let e : suc n + k.index ≡ n + suc k.index = omega arith in
      record {
        index = suc k.index;
        attempt = k.attempt;
        session = k.session;
        stop = k.stop;
        at = k.at;
        loop = k.loop;
        result =
            k.result
            ∙ ap
                (λ i. some (
                  Ending.emits k.session k.attempt.canary_start k.attempt.canary_end (suc i)
                    k.stop))
                e;
        allowed = omega (arith, k.allowed);
        accepted =
            subst
              (λ i.
                (i ≡ canary_retries)
                ⊎ (room_to_retry limits.deadline k.attempt.now ≡ false)
                ⊎ ((canary_clean d at_most k.attempt.canary_start ≡ true)
                    × ((canary_clean d at_most k.attempt.canary_end ≡ true)
                        ⊎ (is_not_stopped k.stop ≡ false))))
              e k.accepted;
      }

  run_config-Keeps_after :
      (n : ℕ) (attempts : List (Attempt D))
      → All Ends attempts
      → n ≤ canary_retries
      → canary_retries < n + length attempts
      → Keeps n attempts (run_config d at_most rank_of cfg limits canary_retries spec n attempts)
  unfolding run_config
  run_config-Keeps_after n [] h le enough = absurd (omega arith)
  run_config-Keeps_after n (a ∷ attempts) h le enough =
      elim (Bool-cases (retries d at_most limits canary_retries (suc n) a.now a.canary_start)) [
        | inl dirty ↦ rw (dirty) (
            Keeps-again n a attempts _ (
              run_config-Keeps_after (suc n) attempts h.1 (retried n a.now a.canary_start dirty)
                (omega arith)))
        | inr start ↦
            elim (Bool-cases (
              retries d at_most limits canary_retries (suc n) a.now a.canary_end
              && is_not_stopped h.0.stop)) [
                | inl dirty ↦
                    let e : run n (a ∷ attempts) ≡ run (suc n) attempts =
                      rw (start, h.0.set_up, h.0.loop, dirty) refl in
                    subst (λ r. Keeps n (a ∷ attempts) r) (sym e)
                      (Keeps-again n a attempts _ (
                        run_config-Keeps_after (suc n) attempts h.1
                          (retried n a.now a.canary_end (ground arith)) (omega arith)))
                | inr end ↦
                    let z : n + 0 ≡ n = omega arith in
                    let e : run n (a ∷ attempts)
                        ≡ some (
                            Ending.emits h.0.session a.canary_start a.canary_end (suc n) h.0.stop) =
                      rw (start, h.0.set_up, h.0.loop, end) refl in
                    record {
                      index = 0;
                      attempt = a;
                      session = h.0.session;
                      stop = h.0.stop;
                      at = refl;
                      loop = h.0.loop;
                      result = e ∙ rw z refl;
                      allowed = omega arith;
                      accepted =
                          rw z
                            (not_retried n a.now a.canary_start a.canary_end h.0.stop le start end);
                    }
              ]
      ]

  -- With an attempt for each retry and one more, each of which sets up and ends, the loop of a
  -- configuration returns the session of one of them, no later than the last that is allowed: it
  -- is that one, or there is no room for another, or the clock was clean before it and also after
  -- it unless the run was stopped.
  pub run_config-Keeps :
      (attempts : List (Attempt D))
      → All Ends attempts
      → canary_retries < length attempts
      → Keeps 0 attempts (run_config d at_most rank_of cfg limits canary_retries spec 0 attempts)
  run_config-Keeps attempts h enough =
      run_config-Keeps_after 0 attempts h (omega arith) (omega arith)
