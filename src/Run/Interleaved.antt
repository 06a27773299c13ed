-- ===== src/Run/Interleaved.antt =====
-- `run_interleaved`: braiding the sessions changes none of them.
use benchmark_platform.Prelude.{
  ℕ, zero, suc, ◌≡◌, refl, sym, ap, ap₂, subst, ◌∙◌, arith, Bool, true, false, List, [], ◌∷◌, map,
  map-map, Bool-cases, inl, inr, Option, some, none, All, if◌then◌else◌,
}
use mathlib.Core.Option
use benchmark_platform.Prelude.Double.{Double}
use benchmark_platform.Session.{Config, Trial, Session, wants_more_trials, run_one_trial}
use benchmark_platform.Run.{StopReason, Reading, Limits, should_stop, is_not_stopped, trial_loop}
use benchmark_platform.Run.Coordinator.{Turn, take_turn, run_round, run_interleaved}

-- What a world shows in `k` rounds from round `n`.
unfoldable pub script_from : (ℕ → Reading × Trial) → (n k : ℕ) → List (Reading × Trial)
script_from world n zero = []
script_from world n (suc k) = world n ∷ script_from world (suc n) k

map-All : {A B : Type 0} (f g : A → B) (xs : List A) → All (λ x. f x ≡ g x) xs → map f xs ≡ map g xs
map-All f g [] h = refl
map-All f g (x ∷ xs) h = ap₂ ◌∷◌ h.0 (map-All f g xs h.1)

All-map :
    {A B : Type 0} (P : A → Type 0) (Q : B → Type 0) (f : A → B) (xs : List A)
    → ((x : A) → P x → Q (f x))
    → All P xs
    → All Q (map f xs)
All-map P Q f [] h a = tt
All-map P Q f (x ∷ xs) h a = (h x a.0, All-map P Q f xs h a.1)

All-impl :
    {A : Type 0} (P Q : A → Type 0) (xs : List A) → ((x : A) → P x → Q x) → All P xs → All Q xs
All-impl P Q [] h a = tt
All-impl P Q (x ∷ xs) h a = (h x a.0, All-impl P Q xs h a.1)

module _ (d : Double) (rank_of : ℕ → ℕ) (cfg : Config) (limits : Limits) where
  open d use {D}

  pub with_session : Turn D → Session D → Turn D
  with_session turn s = record { spec = turn.spec; world = turn.world; session = s }

  -- The loop of a sequential run, on the trials of the turn alone.
  abbrev loop : (fuel n : ℕ) → Turn D → Option (Session D × StopReason)
  loop fuel n turn =
      trial_loop d rank_of cfg limits turn.spec (script_from turn.world n fuel) turn.session

  -- Alone, the session of the turn would end within `fuel` trials, with `session`.
  pub record Alone (fuel n : ℕ) (turn : Turn D) : Type 0 where
    pub unstopped : (r : ℕ) → should_stop limits (turn.world r).0 ≡ StopReason.not_stopped
    pub session : Session D
    pub ends :
        trial_loop d rank_of cfg limits turn.spec (script_from turn.world n fuel) turn.session
        ≡ some (session, StopReason.not_stopped)

  -- The turn with what its session would be, alone.
  pub alone : (fuel n : ℕ) → Turn D → Turn D
  unfolding with_session
  alone fuel n turn = elim (loop fuel n turn) [ none ↦ turn | some (s, stop) ↦ with_session turn s ]

  loop_done :
      (fuel n : ℕ) (turn : Turn D)
      → wants_more_trials cfg turn.session ≡ false
      → loop fuel n turn ≡ some (turn.session, StopReason.not_stopped)
  unfolding trial_loop script_from
  loop_done zero n turn e = rw (e) refl
  loop_done (suc fuel) n turn e = rw (e) refl

  loop_more :
      (fuel n : ℕ) (turn : Turn D)
      → wants_more_trials cfg turn.session ≡ true
      → should_stop limits (turn.world n).0 ≡ StopReason.not_stopped
      → loop (suc fuel) n turn
        ≡ loop fuel (suc n) (
            with_session turn (run_one_trial d rank_of cfg turn.spec (turn.world n).1 turn.session))
  unfolding trial_loop script_from with_session
  loop_more fuel n turn e q = rw (e, q) refl

  take_turn_done :
      (n : ℕ) (turn : Turn D)
      → wants_more_trials cfg turn.session ≡ false
      → take_turn d rank_of cfg limits n turn ≡ turn
  unfolding take_turn
  take_turn_done n turn e = rw (e) refl

  take_turn_more :
      (n : ℕ) (turn : Turn D)
      → wants_more_trials cfg turn.session ≡ true
      → take_turn d rank_of cfg limits n turn
        ≡ with_session turn (run_one_trial d rank_of cfg turn.spec (turn.world n).1 turn.session)
  unfolding take_turn with_session
  take_turn_more n turn e = rw (e) refl

  alone_done :
      (fuel n : ℕ) (turn : Turn D)
      → wants_more_trials cfg turn.session ≡ false
      → alone fuel n turn ≡ turn
  unfolding alone with_session
  alone_done fuel n turn e = rw (alone, loop_done fuel n turn e) refl

  alone-Alone :
      (fuel n : ℕ) (turn : Turn D) (a : Alone fuel n turn)
      → alone fuel n turn ≡ with_session turn a.session
  unfolding alone
  alone-Alone fuel n turn a = rw (alone, a.ends) refl

  take_turn-Alone :
      (fuel n : ℕ) (turn : Turn D)
      → Alone (suc fuel) n turn
      → Alone fuel (suc n) (take_turn d rank_of cfg limits n turn)
  unfolding with_session
  take_turn-Alone fuel n turn a = elim (Bool-cases (wants_more_trials cfg turn.session)) [
    | inl more ↦ subst (Alone fuel (suc n)) (sym (take_turn_more n turn more)) (record {
      unstopped = a.unstopped;
      session = a.session;
      ends = sym (loop_more fuel n turn more (a.unstopped n)) ∙ a.ends;
    })
    | inr done ↦ subst (Alone fuel (suc n)) (sym (take_turn_done n turn done)) (record {
      unstopped = a.unstopped;
      session = turn.session;
      ends = loop_done fuel (suc n) turn done;
    })
  ]

  alone-take_turn :
      (fuel n : ℕ) (turn : Turn D)
      → Alone (suc fuel) n turn
      → alone fuel (suc n) (take_turn d rank_of cfg limits n turn) ≡ alone (suc fuel) n turn
  unfolding with_session
  alone-take_turn fuel n turn a = elim (Bool-cases (wants_more_trials cfg turn.session)) [
    | inl more ↦
        let s : Session D = run_one_trial d rank_of cfg turn.spec (turn.world n).1 turn.session in
        let next : Alone fuel (suc n) (with_session turn s) = record {
          unstopped = a.unstopped;
          session = a.session;
          ends = sym (loop_more fuel n turn more (a.unstopped n)) ∙ a.ends;
        } in
        ap (alone fuel (suc n)) (take_turn_more n turn more)
        ∙ alone-Alone fuel (suc n) (with_session turn s) next
        ∙ sym (alone-Alone (suc fuel) n turn a)
    | inr done ↦
        ap (alone fuel (suc n)) (take_turn_done n turn done)
        ∙ alone_done fuel (suc n) turn done
        ∙ sym (alone_done (suc fuel) n turn done)
  ]

  any_wants : List (Turn D) → Bool → Bool
  any_wants [] any = any
  any_wants (turn ∷ turns) any =
      any_wants turns (if wants_more_trials cfg turn.session then true else any)

  run_round_unstopped :
      (n : ℕ) (turns : List (Turn D)) (any : Bool)
      → All (λ turn. should_stop limits (turn.world n).0 ≡ StopReason.not_stopped) turns
      → run_round d rank_of cfg limits n turns any ≡ record {
        any = any_wants turns any;
        turns = map (take_turn d rank_of cfg limits n) turns;
        stop = StopReason.not_stopped;
      }
  unfolding run_round any_wants is_not_stopped
  run_round_unstopped n [] any h = refl
  run_round_unstopped n (turn ∷ turns) any h =
      rw
        (
          run_round,
          h.0,
          run_round_unstopped n turns (if wants_more_trials cfg turn.session then true else any)
              h.1,
        )
        refl

  any_wants-true : (turns : List (Turn D)) → any_wants turns true ≡ true
  unfolding any_wants
  any_wants-true [] = refl
  any_wants-true (turn ∷ turns) = elim (Bool-cases (wants_more_trials cfg turn.session)) [
    | inl e ↦ rw (e) (any_wants-true turns)
    | inr e ↦ rw (e) (any_wants-true turns)
  ]

  any_wants_none :
      (turns : List (Turn D))
      → any_wants turns false ≡ false
      → All (λ turn. wants_more_trials cfg turn.session ≡ false) turns
  unfolding any_wants
  any_wants_none [] e = tt
  any_wants_none (turn ∷ turns) e = elim (Bool-cases (wants_more_trials cfg turn.session)) [
    | inl more ↦
        let c : any_wants turns true ≡ false =
          subst (λ b. any_wants turns (if b then true else false) ≡ false) more e in
        absurd (ground (arith, any_wants-true turns))
    | inr done ↦ (
      done,
      any_wants_none turns
          (subst (λ b. any_wants turns (if b then true else false) ≡ false) done e),
    )
  ]

  Alone-zero : (n : ℕ) (turn : Turn D) → Alone 0 n turn → wants_more_trials cfg turn.session ≡ false
  unfolding trial_loop script_from
  Alone-zero n turn a = elim (Bool-cases (wants_more_trials cfg turn.session)) [
    | inr done ↦ done
    | inl more ↦
        let none_left : loop 0 n turn ≡ none = rw (trial_loop, more) refl in
        absurd (Option.none-ne-some _ (sym none_left ∙ a.ends))
  ]

  any_wants-false :
      (turns : List (Turn D))
      → All (λ turn. wants_more_trials cfg turn.session ≡ false) turns
      → any_wants turns false ≡ false
  unfolding any_wants
  any_wants-false [] h = refl
  any_wants-false (turn ∷ turns) h = rw (h.0) (any_wants-false turns h.1)

  run_interleaved_idle :
      (fuel n : ℕ) (turns : List (Turn D))
      → All (Alone fuel n) turns
      → any_wants turns false ≡ false
      → run_interleaved d rank_of cfg limits (suc fuel) n turns
        ≡ some (map (alone fuel n) turns, StopReason.not_stopped)
  unfolding run_interleaved is_not_stopped
  run_interleaved_idle fuel n turns h done =
      let round = run_round_unstopped n turns false (
        All-impl (Alone fuel n)
          (λ turn. should_stop limits (turn.world n).0 ≡ StopReason.not_stopped) turns
          (λ turn a. a.unstopped n) h) in
      let same : map (take_turn d rank_of cfg limits n) turns ≡ map (alone fuel n) turns =
        map-All _ _ turns (
          All-impl (λ turn. wants_more_trials cfg turn.session ≡ false) _ turns
            (λ turn e. take_turn_done n turn e ∙ sym (alone_done fuel n turn e))
            (any_wants_none turns done)) in
      rw (run_interleaved, round, done, same) refl

  -- When nothing stops the run and each session would end alone within a number of trials, the
  -- interleaved run ends, within one round more, and each session is what it would be alone.
  pub run_interleaved-alone :
      (fuel n : ℕ) (turns : List (Turn D))
      → All (Alone fuel n) turns
      → run_interleaved d rank_of cfg limits (suc fuel) n turns
        ≡ some (map (alone fuel n) turns, StopReason.not_stopped)
  unfolding run_interleaved is_not_stopped
  run_interleaved-alone zero n turns h = run_interleaved_idle zero n turns h (
      any_wants-false turns (
        All-impl (Alone zero n) (λ turn. wants_more_trials cfg turn.session ≡ false) turns
          (Alone-zero n) h))
  run_interleaved-alone (suc fuel) n turns h = elim (Bool-cases (any_wants turns false)) [
    | inr done ↦ run_interleaved_idle (suc fuel) n turns h done
    | inl more ↦
        let round = run_round_unstopped n turns false (
          All-impl (Alone (suc fuel) n)
            (λ turn. should_stop limits (turn.world n).0 ≡ StopReason.not_stopped) turns
            (λ turn a. a.unstopped n) h) in
        let turns1 : List (Turn D) = map (take_turn d rank_of cfg limits n) turns in
        let same : map (alone fuel (suc n)) turns1 ≡ map (alone (suc fuel) n) turns =
          map-map (alone fuel (suc n)) (take_turn d rank_of cfg limits n) turns
          ∙ map-All _ _ turns (All-impl (Alone (suc fuel) n) _ turns (alone-take_turn fuel n) h) in
        let ih = run_interleaved-alone fuel (suc n) turns1 (
          All-map (Alone (suc fuel) n) (Alone fuel (suc n)) (take_turn d rank_of cfg limits n) turns
            (take_turn-Alone fuel n) h) in
        let step : run_interleaved d rank_of cfg limits (suc (suc fuel)) n turns
            ≡ run_interleaved d rank_of cfg limits (suc fuel) (suc n) turns1 =
          rw (run_interleaved, round, more) refl in
        step ∙ ih ∙ ap (λ l. some (l, StopReason.not_stopped)) same
  ]
