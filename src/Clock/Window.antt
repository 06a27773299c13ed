-- ===== src/Clock/Window.antt =====
-- `clock_selftest`: when it ends, for a clock that does not go backwards, and its result.
use benchmark_platform.Prelude.{
  ℕ, zero, suc, ◌+◌, ◌-◌, ◌%◌, ◌<◌, ◌≤◌, ◌≡◌, ◌⊎◌, max, refl, sym, ap, subst, ◌∙◌, arith, Bool,
  true, Option, none, some, List, [], ◌∷◌, ◌++◌, length, take, get_or, append_assoc, length-append,
  take-append_eq, get_or-append_self, ltb, if◌then◌else◌, Bool-cases, inl, inr,
}
use benchmark_platform.Clock.{
  Sampled, take_sample, past_deadline, sample_from, fresh, clock_selftest,
}
use benchmark_platform.Clock.Samples.{
  Rises, gaps, Extreme, AtMost, NotBelow, Sound, take_sample-Sound,
}

-- The sample number `i`, with the reading `now`, ends a window of `w` nanoseconds: the window is
-- capped, this is a sample at which the time is looked at, one in 1024, and the window is over.
abbrev pub IsLate : (w begin i now : ℕ) → Type 0
IsLate w begin i now = (0 < w) × (suc i % 1024 ≡ 0) × (begin + w ≤ now)

abbrev deadline_of : (w begin : ℕ) → Option ℕ
deadline_of w begin = if ltb 0 w then some (begin + w) else none

past_deadline-IsLate :
    (w begin i now : ℕ) → past_deadline (deadline_of w begin) i now ≡ true → IsLate w begin i now
unfolding past_deadline
past_deadline-IsLate w begin i now e = elim (Bool-cases (ltb 0 w)) [
  | inl capped ↦
      let t : past_deadline (some (begin + w)) i now ≡ true =
        ap (λ (b : Bool). past_deadline (if b then some (begin + w) else none) i now) (sym capped)
        ∙ e in
      ground arith
  | inr open_end ↦
      let t : past_deadline none i now ≡ true =
        ap (λ (b : Bool). past_deadline (if b then some (begin + w) else none) i now) (sym open_end)
        ∙ e in
      absurd (ground arith)
]

IsLate-past_deadline :
    (w begin i now : ℕ) → IsLate w begin i now → past_deadline (deadline_of w begin) i now ≡ true
unfolding past_deadline
IsLate-past_deadline w begin i now late =
    let capped : ltb 0 w ≡ true = ground arith in rw (capped) (ground arith)

-- The result of the test: the samples taken are the first times between the readings; the window
-- has ended at the last of them, and at none before.
pub record Result (most w begin : ℕ) (script : List ℕ) (r : Option Sampled) : Type 0 where
  pub sampled : Sampled
  pub returns : r ≡ some sampled
  pub monotonic : sampled.monotonic ≡ true
  pub some_taken : 2 ≤ sampled.taken
  pub bounded : sampled.taken ≤ most
  pub total : (i : ℕ) × (sampled.taken ≡ suc i) × (begin + sampled.total ≡ get_or script i 0)
  pub least : Extreme AtMost sampled.min_call_ns (take sampled.taken (gaps begin script))
  pub greatest : Extreme NotBelow sampled.max_call_ns (take sampled.taken (gaps begin script))
  pub stops :
      (sampled.taken ≡ most)
      ⊎ ((i : ℕ) × (sampled.taken ≡ suc i) × IsLate w begin i (get_or script i 0))
  pub goes_on : (i : ℕ) → suc i < sampled.taken → ¬ IsLate w begin i (get_or script i 0)

module _ (w begin : ℕ) (all : List ℕ) where
  -- Where the loop is, after `i` samples.
  record At (i : ℕ) (seen script : List ℕ) (s : Sampled) : Type 0 where
    pub before : List ℕ
    pub split : all ≡ before ++ script
    pub place : length before ≡ i
    pub sound : Sound begin seen s
    pub length_seen : length seen ≡ i
    pub times : gaps begin all ≡ seen ++ gaps s.prev script
    pub last : (i ≡ 0) ⊎ ((j : ℕ) × (i ≡ suc j) × (s.prev ≡ get_or all j 0))
    pub rising : Rises s.prev script

  At-reading :
      (i : ℕ) (seen : List ℕ) (now : ℕ) (script : List ℕ) (s : Sampled)
      → At i seen (now ∷ script) s
      → get_or all i 0 ≡ now
  At-reading i seen now script s at =
      ap (λ l. get_or l i 0) at.split
      ∙ ap (λ k. get_or (at.before ++ now ∷ script) k 0) (sym at.place)
      ∙ get_or-append_self at.before now script 0

  At-next :
      (i : ℕ) (seen : List ℕ) (now : ℕ) (script : List ℕ) (s : Sampled)
      → At i seen (now ∷ script) s
      → At (suc i) (seen ++ (now - s.prev) ∷ []) script (take_sample now s)
  unfolding take_sample
  At-next i seen now script s at = record {
    before = at.before ++ now ∷ [];
    split = at.split ∙ sym (append_assoc at.before (now ∷ []) script);
    place = omega (arith, length-append at.before (now ∷ []), at.place);
    sound = take_sample-Sound begin now seen s at.sound at.rising.0 at.rising.1;
    length_seen = omega (arith, length-append seen ((now - s.prev) ∷ []), at.length_seen);
    times = at.times ∙ sym (append_assoc seen ((now - s.prev) ∷ []) (gaps now script));
    last = inr (i, refl, sym (At-reading i seen now script s at));
    rising = at.rising.2;
  }

  At-Result :
      (most i : ℕ) (seen script : List ℕ) (s : Sampled)
      → At i seen script s
      → 2 ≤ i
      → i ≤ most
      → (i ≡ most) ⊎ ((j : ℕ) × (i ≡ suc j) × IsLate w begin j (get_or all j 0))
      → ((j : ℕ) → suc j < i → ¬ IsLate w begin j (get_or all j 0))
      → Result most w begin all (some s)
  At-Result most i seen script s at two le stops goes_on =
      let n : i ≡ s.taken = omega (arith, at.sound.counted, at.length_seen) in
      let times : seen ≡ take s.taken (gaps begin all) =
        sym (take-append_eq s.taken seen (gaps s.prev script) (at.length_seen ∙ n))
        ∙ ap (take s.taken) (sym at.times) in
      record {
        sampled = s;
        returns = refl;
        monotonic = at.sound.monotonic;
        some_taken = omega arith;
        bounded = omega arith;
        total = elim at.last [
          | inl z ↦ absurd (omega arith)
          | inr (j, e, prev) ↦ (j, sym n ∙ e, at.sound.elapsed ∙ prev)
        ];
        least = elim at.sound.least [
          | inl z ↦ absurd (omega (arith, at.length_seen))
          | inr h ↦ subst (Extreme AtMost s.min_call_ns) times h
        ];
        greatest = elim at.sound.greatest [
          | inl z ↦ absurd (omega (arith, at.length_seen, z.0))
          | inr h ↦ subst (Extreme NotBelow s.max_call_ns) times h
        ];
        stops =
            subst (λ k. (k ≡ most) ⊎ ((j : ℕ) × (k ≡ suc j) × IsLate w begin j (get_or all j 0))) n
              stops;
        goes_on = λ j h. goes_on j (omega arith);
      }

  goes_on_next :
      (i : ℕ)
      → ¬ IsLate w begin i (get_or all i 0)
      → ((j : ℕ) → j < i → ¬ IsLate w begin j (get_or all j 0))
      → (j : ℕ) → j < suc i
      → ¬ IsLate w begin j (get_or all j 0)
  goes_on_next i now_on before j h = elim (Bool-cases (ltb j i)) [
    | inl less ↦ before j (ground arith)
    | inr last ↦
        let e : i ≡ j = ground arith in subst (λ k. ¬ IsLate w begin k (get_or all k 0)) e now_on
  ]

  late_second : (i now : ℕ) → IsLate w begin i now → 2 ≤ suc i
  late_second i now late = omega (arith, late.1)

  sample_from-Result :
      (most left i : ℕ) (seen script : List ℕ) (s : Sampled)
      → At i seen script s
      → i + left ≡ most
      → left ≤ length script
      → 2 ≤ most
      → ((j : ℕ) → j < i → ¬ IsLate w begin j (get_or all j 0))
      → Result most w begin all (sample_from (deadline_of w begin) left i script s)
  unfolding sample_from
  sample_from-Result most zero i seen script s at sum enough two goes_on =
      At-Result most i seen script s at (omega arith) (omega arith) (inl (omega arith))
        (λ j h. goes_on j (omega arith))
  sample_from-Result most (suc left) i seen [] s at sum enough two goes_on = absurd (omega arith)
  sample_from-Result most (suc left) i seen (now ∷ script) s at sum enough two goes_on =
      let next = At-next i seen now script s at in
      let here : now ≡ get_or all i 0 = sym (At-reading i seen now script s at) in
      let taken : List ℕ = seen ++ (now - s.prev) ∷ [] in
      elim (Bool-cases (past_deadline (deadline_of w begin) i now)) [
        | inl stop ↦
            let late : IsLate w begin i now = past_deadline-IsLate w begin i now stop in
            rw (stop) (
              At-Result most (suc i) taken script (take_sample now s) next (late_second i now late)
                (omega arith) (inr (i, refl, subst (IsLate w begin i) here late))
                (λ j h. goes_on j (omega arith)))
        | inr go ↦
            let on : ¬ IsLate w begin i (get_or all i 0) = λ late.
              cc (
                go,
                IsLate-past_deadline w begin i now (subst (IsLate w begin i) (sym here) late),
              ) in
            rw (go) (
              sample_from-Result most left (suc i) taken script (take_sample now s) next
                (omega arith) (omega arith) two (goes_on_next i on goes_on))
      ]

-- For readings that do not go down and stay below 2^64, as many as the samples asked for and at
-- least two, the test of the clock ends and finds it monotonic. It takes at least two samples,
-- and no more than asked for or two; they are the first times between the readings. The least and
-- the greatest are among them and bound them all, and the total is the time from the start to the
-- last reading. It ends with the samples asked for, or at the first sample with a number
-- divisible by 1024 whose reading is past the window, if there is one.
pub clock_selftest-Result :
    (samples max_window begin : ℕ) (script : List ℕ)
    → Rises begin script
    → max 2 samples ≤ length script
    → Result
        (max 2 samples)
        max_window
        begin
        script
        (clock_selftest samples max_window begin script)
unfolding clock_selftest
clock_selftest-Result samples max_window begin script rises enough =
    let start : At max_window begin script 0 [] script (fresh begin) = record {
      before = [];
      split = refl;
      place = refl;
      sound = record {
        monotonic = refl;
        elapsed = omega arith;
        counted = refl;
        least = inl refl;
        greatest = inl (refl, refl);
      };
      length_seen = refl;
      times = refl;
      last = inl refl;
      rising = rises;
    } in
    sample_from-Result max_window begin script (max 2 samples) (max 2 samples) 0 [] script
      (fresh begin) start (omega arith) enough (omega arith) (λ j h. absurd (omega arith))
