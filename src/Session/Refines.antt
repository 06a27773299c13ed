-- ===== src/Session/Refines.antt =====
-- What a session holds after any trials is what the description by the trials alone says.
use benchmark_platform.Prelude.{
  ℕ, suc, ◌+◌, ◌*◌, ◌<◌, ◌^◌, ◌≡◌, refl, sym, ap, ap₂, subst, ◌∙◌, arith, Bool, true, false, List,
  [], ◌∷◌, ◌++◌, map, append_assoc, append-nil, length, take, drop, Bool-cases, inl, inr, ltb, ◌||◌,
}
use benchmark_platform.Prelude.Double.{Double}
use benchmark_platform.Prelude.Int.{neg}
use benchmark_platform.Session.{
  Config, ConfigSpec, Trial, Result, Session, new_session, trial_ns, in_warmup, result_of,
  run_trials,
}
use benchmark_platform.Session.Report.{
  total_ns, warmups_from, count_late, columns, timed_from, warm_from, Reports,
}
use benchmark_platform.Session.Timed.{warm_step, run_one_trial_warm, Appends, run_trials-Appends}

module _ (d : Double) (rank_of : ℕ → ℕ) (cfg : Config) (spec : ConfigSpec) where
  open d use {D}

  in_warmup_test :
      (s : Session D)
      → cfg.warmup_ms < 2 ^ 31
      → in_warmup cfg s
        ≡ (ltb s.warmups_done cfg.warmup_trials || ltb s.active_ns (cfg.warmup_ms * 1_000_000))
  unfolding in_warmup
  in_warmup_test s h = ground arith

  warmups_from_warm :
      (s : Session D) (t : Trial) (ts : List Trial)
      → cfg.warmup_ms < 2 ^ 31
      → in_warmup cfg s ≡ true
      → warmups_from cfg s.warmups_done s.active_ns (t ∷ ts)
        ≡ suc (warmups_from cfg (suc s.warmups_done) (s.active_ns + trial_ns t) ts)
  unfolding warmups_from
  warmups_from_warm s t ts h e = rw (sym (in_warmup_test s h) ∙ e) refl

  warmups_from_cold :
      (s : Session D) (ts : List Trial)
      → cfg.warmup_ms < 2 ^ 31
      → in_warmup cfg s ≡ false
      → warmups_from cfg s.warmups_done s.active_ns ts ≡ 0
  unfolding warmups_from
  warmups_from_cold s [] h e = refl
  warmups_from_cold s (t ∷ ts) h e = rw (sym (in_warmup_test s h) ∙ e) refl

  -- A session that has run warm-up trials only.
  record Warming (s : Session D) : Type 0 where
    timed : s.timed_done ≡ 0
    late : s.late_trials ≡ 0
    collected : s.values ≡ columns d rank_of spec []
    emitted : s.results ≡ []

  -- `s'` is `s` after the trials `ts`, of which the first `w` are warm-up.
  record Runs (w : ℕ) (ts : List Trial) (s s' : Session D) : Type 0 where
    warmups : s'.warmups_done ≡ s.warmups_done + w
    timed : s'.timed_done ≡ length (drop w ts)
    late : s'.late_trials ≡ count_late (drop w ts)
    collected : s'.values ≡ columns d rank_of spec (drop w ts)
    emitted : s'.results ≡ timed_from d rank_of spec (s.warmups_done + w) 0 (drop w ts)
    called :
        s'.progressed
        ≡ s.progressed
          ++ (warm_from d rank_of spec s.warmups_done (take w ts)
              ++ map
                  (λ r. (r, false))
                  (timed_from d rank_of spec (s.warmups_done + w) 0 (drop w ts)))

  run_trials-Runs_cold :
      (ts : List Trial) (s : Session D)
      → Warming s
      → in_warmup cfg s ≡ false
      → s.active_ns + total_ns ts < 2 ^ 64
      → Runs 0 ts s (run_trials d rank_of cfg spec ts s)
  unfolding warm_from
  run_trials-Runs_cold ts s new cold h =
      let a : Appends d rank_of cfg spec [] ts s (run_trials d rank_of cfg spec ts s) =
        run_trials-Appends d rank_of cfg spec [] ts s cold h new.collected in
      let none_done : s.warmups_done ≡ s.warmups_done + 0 = omega arith in
      let from : timed_from d rank_of spec s.warmups_done s.timed_done ts
          ≡ timed_from d rank_of spec (s.warmups_done + 0) 0 ts =
        ap₂ (λ w n. timed_from d rank_of spec w n ts) none_done new.timed in
      record {
        warmups = a.warmups ∙ none_done;
        timed = a.timed ∙ ap (λ n. n + length ts) new.timed ∙ omega arith;
        late = a.late ∙ ap (λ n. n + count_late ts) new.late ∙ omega arith;
        collected = a.collected;
        emitted = a.emitted ∙ ap₂ ◌++◌ new.emitted from;
        called = a.called ∙ ap (λ l. s.progressed ++ map (λ r. (r, false)) l) from;
      }

  -- The step to a run of `ts` from that of a session that has made the warm-up trial `t` too.
  Runs-warm :
      (t : Trial) (ts : List Trial) (s s' : Session D) (w : ℕ)
      → Warming s
      → Runs w ts (warm_step d rank_of cfg spec t s) s'
      → Runs (suc w) (t ∷ ts) s s'
  unfolding warm_from
  Runs-warm t ts s s' w new r =
      let n : suc s.warmups_done + w ≡ s.warmups_done + suc w = omega arith in
      let now : List (Result D × Bool) =
        map (λ r. (r, true))
          (map (result_of d rank_of spec t (suc s.warmups_done) (neg (suc s.warmups_done)))
            spec.metrics) in
      let next : List (Result D × Bool) =
        warm_from d rank_of spec (suc s.warmups_done) (take w ts) in
      let timed : ℕ → List (Result D × Bool) =
        λ k. map (λ r. (r, false)) (timed_from d rank_of spec k 0 (drop w ts)) in
      record {
        warmups = r.warmups ∙ n;
        timed = r.timed;
        late = r.late;
        collected = r.collected;
        emitted = r.emitted ∙ ap (λ k. timed_from d rank_of spec k 0 (drop w ts)) n;
        called =
            r.called
            ∙ append_assoc s.progressed now (next ++ timed (suc s.warmups_done + w))
            ∙ ap (λ l. s.progressed ++ l)
                (sym (append_assoc now next (timed (suc s.warmups_done + w)))
                  ∙ ap (λ k. (now ++ next) ++ timed k) n);
      }

  run_trials-Runs :
      (ts : List Trial) (s : Session D)
      → cfg.warmup_ms < 2 ^ 31
      → Warming s
      → s.active_ns + total_ns ts < 2 ^ 64
      → Runs
          (warmups_from cfg s.warmups_done s.active_ns ts)
          ts
          s
          (run_trials d rank_of cfg spec ts s)
  unfolding run_trials warmups_from warm_from timed_from
  run_trials-Runs [] s small new h = record {
    warmups = omega arith;
    timed = new.timed;
    late = new.late;
    collected = new.collected;
    emitted = new.emitted;
    called = sym (append-nil s.progressed);
  }
  run_trials-Runs (t ∷ ts) s small new h = elim (Bool-cases (in_warmup cfg s)) [
    | inr cold ↦
        rw (warmups_from_cold s (t ∷ ts) small cold) (run_trials-Runs_cold (t ∷ ts) s new cold h)
    | inl warm ↦
        let bound : s.active_ns + trial_ns t + total_ns ts < 2 ^ 64 = omega arith in
        let s1 : Session D = warm_step d rank_of cfg spec t s in
        let active : s1.active_ns ≡ s.active_ns + trial_ns t = omega arith in
        let new1 : Warming s1 = record {
          timed = new.timed;
          late = new.late;
          collected = new.collected;
          emitted = new.emitted;
        } in
        let ih : Runs (warmups_from cfg s1.warmups_done s1.active_ns ts) ts s1
            (run_trials d rank_of cfg spec ts s1) =
          run_trials-Runs ts s1 small new1 (omega arith) in
        let w : warmups_from cfg (suc s.warmups_done) s1.active_ns ts
            ≡ warmups_from cfg (suc s.warmups_done) (s.active_ns + trial_ns t) ts =
          ap (λ a. warmups_from cfg (suc s.warmups_done) a ts) active in
        rw (warmups_from_warm s t ts small warm, run_one_trial_warm d rank_of cfg spec t s warm)
          (subst (λ k. Runs (suc k) (t ∷ ts) s (run_trials d rank_of cfg spec ts s1)) w
            (Runs-warm t ts s _ _ new ih))
  ]

  -- After trials of less than 2^64 nanoseconds in all, for a warm-up time below 2^31
  -- milliseconds, the session reports what the trials alone say: the warm-up is the least prefix
  -- with enough trials and time; the trials after it are the timed ones, numbered from 0 in
  -- order, each with one result for each metric; the values are those of the timed trials, metric
  -- by metric; the late trials among them are counted; and the callback has seen every trial, the
  -- warm-up ones with the numbers -1, -2, ….
  pub run_trials-Reports :
      (ts : List Trial)
      → cfg.warmup_ms < 2 ^ 31
      → total_ns ts < 2 ^ 64
      → Reports d rank_of spec
          (warmups_from cfg 0 0 ts)
          ts
          (run_trials d rank_of cfg spec ts (new_session spec))
  unfolding new_session columns
  run_trials-Reports ts small h =
      let start : Warming (new_session spec) = record {
        timed = refl;
        late = refl;
        collected = refl;
        emitted = refl;
      } in
      let r : Runs (warmups_from cfg 0 0 ts) ts (new_session spec)
          (run_trials d rank_of cfg spec ts (new_session spec)) =
        run_trials-Runs ts (new_session spec) small start (omega arith) in
      let count : ℕ = warmups_from cfg 0 0 ts in
      let w : 0 + count ≡ count = omega arith in
      record {
        warmups = r.warmups ∙ w;
        timed = r.timed;
        late = r.late;
        collected = r.collected;
        emitted = r.emitted ∙ ap (λ k. timed_from d rank_of spec k 0 (drop count ts)) w;
        called =
            r.called
            ∙ ap
                (λ k.
                  warm_from d rank_of spec 0 (take count ts)
                  ++ map (λ r. (r, false)) (timed_from d rank_of spec k 0 (drop count ts)))
                w;
      }
