-- ===== src/Session/Timed.antt =====
-- `run_one_trial`: the two kinds of steps, and a run of trials after the warm-up.
use benchmark_platform.Prelude.{
  ℕ, suc, ◌+◌, ◌-◌, ◌<◌, ◌^◌, ◌≡◌, refl, sym, ap, ap₂, ◌∙◌, arith, true, false, List, [], ◌∷◌, ◌++◌,
  map, map-append, append_assoc, append-nil, length, if◌then◌else◌,
}
use benchmark_platform.Prelude.Double.{Double}
use benchmark_platform.Prelude.Int.{pos, neg}
use benchmark_platform.Prelude.Words.{u64}
use benchmark_platform.Metric.{Metric}
use benchmark_platform.Session.{
  Config, ConfigSpec, Trial, Result, Session, trial_ns, is_late, in_warmup, value_of, result_of,
  push_values, run_one_trial, run_trials,
}
use benchmark_platform.Session.Report.{total_ns, count_late, columns, timed_from}

module _ (d : Double) (rank_of : ℕ → ℕ) (cfg : Config) (spec : ConfigSpec) where
  open d use {D}

  push_values-columns :
      (us : List Trial) (t : Trial) (w n : ℕ) (ms : List Metric)
      → push_values
          (map (λ m. map (λ t. value_of d rank_of spec t m) us) ms)
          (map (λ r. r.value) (map (result_of d rank_of spec t w (pos n)) ms))
        ≡ map (λ m. map (λ t. value_of d rank_of spec t m) (us ++ t ∷ [])) ms
  unfolding push_values result_of
  push_values-columns us t w n [] = refl
  push_values-columns us t w n (m ∷ ms) =
      ap₂ ◌∷◌ (sym (map-append (λ t. value_of d rank_of spec t m) us (t ∷ [])))
        (push_values-columns us t w n ms)

  abbrev pub timed_step : Trial → Session D → Session D
  timed_step t s =
      let found = map (result_of d rank_of spec t s.warmups_done (pos s.timed_done)) spec.metrics in
      record {
        warmups_done = s.warmups_done;
        timed_done = suc s.timed_done;
        late_trials = if is_late t then suc s.late_trials else s.late_trials;
        active_ns = u64 (s.active_ns + trial_ns t);
        values = push_values s.values (map (λ r. r.value) found);
        results = s.results ++ found;
        progressed = s.progressed ++ map (λ r. (r, false)) found;
      }

  abbrev pub warm_step : Trial → Session D → Session D
  warm_step t s =
      let w = suc s.warmups_done in
      let found = map (result_of d rank_of spec t w (neg w)) spec.metrics in
      record {
        warmups_done = w;
        timed_done = s.timed_done;
        late_trials = s.late_trials;
        active_ns = u64 (s.active_ns + trial_ns t);
        values = s.values;
        results = s.results;
        progressed = s.progressed ++ map (λ r. (r, true)) found;
      }

  pub run_one_trial_timed :
      (t : Trial) (s : Session D)
      → in_warmup cfg s ≡ false
      → run_one_trial d rank_of cfg spec t s ≡ timed_step t s
  unfolding run_one_trial is_late push_values
  run_one_trial_timed t s e =
      let pred : suc s.timed_done - 1 ≡ s.timed_done = omega arith in
      rw (run_one_trial, e, pred) refl

  pub run_one_trial_warm :
      (t : Trial) (s : Session D)
      → in_warmup cfg s ≡ true
      → run_one_trial d rank_of cfg spec t s ≡ warm_step t s
  unfolding run_one_trial
  run_one_trial_warm t s e = rw (run_one_trial, e) refl

  timed_step_cold :
      (t : Trial) (s : Session D)
      → in_warmup cfg s ≡ false
      → s.active_ns + trial_ns t < 2 ^ 64
      → in_warmup cfg (timed_step t s) ≡ false
  unfolding in_warmup
  timed_step_cold t s e h = ground arith

  -- `s'` is `s` after the timed trials `ts`; the timed trials before are `us`.
  pub record Appends (us ts : List Trial) (s s' : Session D) : Type 0 where
    pub warmups : s'.warmups_done ≡ s.warmups_done
    pub timed : s'.timed_done ≡ s.timed_done + length ts
    pub late : s'.late_trials ≡ s.late_trials + count_late ts
    pub collected : s'.values ≡ columns d rank_of spec (us ++ ts)
    pub emitted : s'.results ≡ s.results ++ timed_from d rank_of spec s.warmups_done s.timed_done ts
    pub called :
        s'.progressed
        ≡ s.progressed
          ++ map (λ r. (r, false)) (timed_from d rank_of spec s.warmups_done s.timed_done ts)

  pub run_trials-Appends :
      (us ts : List Trial) (s : Session D)
      → in_warmup cfg s ≡ false
      → s.active_ns + total_ns ts < 2 ^ 64
      → s.values ≡ columns d rank_of spec us
      → Appends us ts s (run_trials d rank_of cfg spec ts s)
  unfolding run_trials timed_from columns is_late
  run_trials-Appends us [] s cold h v = record {
    warmups = refl;
    timed = omega arith;
    late = omega arith;
    collected = v ∙ ap (columns d rank_of spec) (sym (append-nil us));
    emitted = sym (append-nil s.results);
    called = sym (append-nil s.progressed);
  }
  run_trials-Appends us (t ∷ ts) s cold h v =
      let s1 : Session D = timed_step t s in
      let found : List (Result D) =
        map (result_of d rank_of spec t s.warmups_done (pos s.timed_done)) spec.metrics in
      let more : List (Result D) = timed_from d rank_of spec s.warmups_done (suc s.timed_done) ts in
      let bound : s.active_ns + trial_ns t + total_ns ts < 2 ^ 64 = omega arith in
      let active : s1.active_ns ≡ s.active_ns + trial_ns t = omega arith in
      let v1 : s1.values ≡ columns d rank_of spec (us ++ t ∷ []) =
        ap (λ c. push_values c (map (λ r. r.value) found)) v
        ∙ push_values-columns us t s.warmups_done s.timed_done spec.metrics in
      let ih : Appends (us ++ t ∷ []) ts s1 (run_trials d rank_of cfg spec ts s1) =
        run_trials-Appends (us ++ t ∷ []) ts s1 (timed_step_cold t s cold (omega arith))
          (omega arith) v1 in
      rw (run_one_trial_timed t s cold) (record {
        warmups = ih.warmups;
        timed = ih.timed ∙ omega arith;
        late = ih.late ∙ ground arith;
        collected = ih.collected ∙ ap (columns d rank_of spec) (append_assoc us (t ∷ []) ts);
        emitted = ih.emitted ∙ append_assoc s.results found more;
        called =
            ih.called
            ∙ append_assoc s.progressed (map (λ r. (r, false)) found) (map (λ r. (r, false)) more)
            ∙ ap (λ l. s.progressed ++ l) (sym (map-append (λ r. (r, false)) found more));
      })
