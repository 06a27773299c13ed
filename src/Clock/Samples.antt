-- ===== src/Clock/Samples.antt =====
-- The samples of `clock_selftest`, for a clock that does not go backwards.
use benchmark_platform.Prelude.{
  ℕ, ◌+◌, ◌-◌, ◌%◌, ◌<◌, ◌≤◌, ◌^◌, ◌≡◌, ◌⊎◌, min, max, subst, ◌∙◌, arith, true, false, List, [],
  ◌∷◌, ◌++◌, length, get_or, All, All-append, length-append, get_or-append_lt, get_or-append_self,
  ◌==◌, ltb, if◌then◌else◌, Bool-cases, inl, inr,
}
use benchmark_platform.Clock.{Sampled, take_sample}

-- From `prev` on the readings do not go down, and stay below 2^64.
abbrev pub Rises : (prev : ℕ) → List ℕ → Type 0
Rises prev [] = Unit
Rises prev (now ∷ script) = (prev ≤ now) × (now < 2 ^ 64) × Rises now script

-- The times between the readings.
abbrev pub gaps : (prev : ℕ) → List ℕ → List ℕ
gaps prev [] = []
gaps prev (now ∷ script) = (now - prev) ∷ gaps now script

-- One of the list, to which all of the list are related: its least or its greatest.
abbrev pub Extreme : (ℕ → ℕ → Type 0) → ℕ → List ℕ → Type 0
Extreme R m xs = ((i : ℕ) × (i < length xs) × (get_or xs i 0 ≡ m)) × All (R m) xs

abbrev pub AtMost : ℕ → ℕ → Type 0
AtMost m x = m ≤ x

abbrev pub NotBelow : ℕ → ℕ → Type 0
NotBelow m x = x ≤ m

module _ (R : ℕ → ℕ → Type 0) where
  All-monotone : (m k : ℕ) → ((x : ℕ) → R m x → R k x) → (xs : List ℕ) → All (R m) xs → All (R k) xs
  All-monotone m k f [] h = tt
  All-monotone m k f (x ∷ xs) h = (f x h.0, All-monotone m k f xs h.1)

  All-none : (m : ℕ) (xs : List ℕ) → length xs ≡ 0 → All (R m) xs
  All-none m [] e = tt
  All-none m (x ∷ xs) e = absurd (omega arith)

  -- The last one of a list.
  last_one :
      (d : ℕ) (seen : List ℕ)
      → (i : ℕ) × (i < length (seen ++ d ∷ [])) × (get_or (seen ++ d ∷ []) i 0 ≡ d)
  last_one d seen =
      (length seen, omega (arith, length-append seen (d ∷ [])), get_or-append_self seen d [] 0)

  Extreme-keep : (m d : ℕ) (seen : List ℕ) → R m d → Extreme R m seen → Extreme R m (seen ++ d ∷ [])
  Extreme-keep m d seen r h = (
    (
      h.0.0,
      omega (arith, length-append seen (d ∷ []), h.0.1),
      get_or-append_lt seen (d ∷ []) h.0.0 0 h.0.1 ∙ h.0.2,
    ),
    All-append (R m) seen (d ∷ []) h.1 (r, tt),
  )

  Extreme-new : (d : ℕ) (seen : List ℕ) → R d d → All (R d) seen → Extreme R d (seen ++ d ∷ [])
  Extreme-new d seen r h = (last_one d seen, All-append (R d) seen (d ∷ []) h (r, tt))

-- `s` is what the samples `seen` since `begin` make.
pub record Sound (begin : ℕ) (seen : List ℕ) (s : Sampled) : Type 0 where
  pub monotonic : s.monotonic ≡ true
  pub elapsed : begin + s.total ≡ s.prev
  pub counted : s.taken ≡ length seen
  pub least : (length seen ≡ 0) ⊎ Extreme AtMost s.min_call_ns seen
  pub greatest : ((length seen ≡ 0) × (s.max_call_ns ≡ 0)) ⊎ Extreme NotBelow s.max_call_ns seen

least_next :
    (m d : ℕ) (seen : List ℕ)
    → (length seen ≡ 0) ⊎ Extreme AtMost m seen
    → Extreme AtMost (if length seen == 0 then d else min m d) (seen ++ d ∷ [])
least_next m d seen (inl e) =
    rw (e) (Extreme-new AtMost d seen (omega arith) (All-none AtMost d seen e))
least_next m d seen (inr h) =
    let some_seen : (length seen == 0) ≡ false = ground (arith, h.0.1) in
    rw (some_seen) (elim (Bool-cases (ltb m d)) [
      | inl less ↦
          let k : m ≡ min m d = ground arith in
          subst (λ k. Extreme AtMost k (seen ++ d ∷ [])) k
            (Extreme-keep AtMost m d seen (ground arith) h)
      | inr other ↦
          let k : d ≡ min m d = ground arith in
          let le : d ≤ m = ground arith in
          subst (λ k. Extreme AtMost k (seen ++ d ∷ [])) k
            (Extreme-new AtMost d seen (omega arith)
              (All-monotone AtMost m d (λ x r. omega (arith, r, le)) seen h.1))
    ])

greatest_next :
    (m d : ℕ) (seen : List ℕ)
    → ((length seen ≡ 0) × (m ≡ 0)) ⊎ Extreme NotBelow m seen
    → Extreme NotBelow (max m d) (seen ++ d ∷ [])
greatest_next m d seen (inl (e, z)) =
    let k : d ≡ max m d = omega arith in
    subst (λ k. Extreme NotBelow k (seen ++ d ∷ [])) k
      (Extreme-new NotBelow d seen (omega arith) (All-none NotBelow d seen e))
greatest_next m d seen (inr h) = elim (Bool-cases (ltb m d)) [
  | inr other ↦
      let k : m ≡ max m d = ground arith in
      subst (λ k. Extreme NotBelow k (seen ++ d ∷ [])) k
        (Extreme-keep NotBelow m d seen (ground arith) h)
  | inl less ↦
      let k : d ≡ max m d = ground arith in
      let le : m ≤ d = ground arith in
      subst (λ k. Extreme NotBelow k (seen ++ d ∷ [])) k
        (Extreme-new NotBelow d seen (omega arith)
          (All-monotone NotBelow m d (λ x r. omega (arith, r, le)) seen h.1))
]

pub take_sample-Sound :
    (begin now : ℕ) (seen : List ℕ) (s : Sampled)
    → Sound begin seen s
    → s.prev ≤ now
    → now < 2 ^ 64
    → Sound begin (seen ++ (now - s.prev) ∷ []) (take_sample now s)
unfolding take_sample
take_sample-Sound begin now seen s ok le h =
    let d : ℕ = (now + 2 ^ 64 - s.prev) % 2 ^ 64 in
    let e : now - s.prev ≡ d = omega arith in
    let sum : (s.total + d) % 2 ^ 64 ≡ s.total + d = omega (arith, ok.elapsed) in
    let least : Extreme AtMost (if s.taken == 0 then d else min s.min_call_ns d) (seen ++ d ∷ []) =
      rw (ok.counted) (least_next s.min_call_ns d seen ok.least) in
    rw (e) (record {
      monotonic = ground (arith, ok.monotonic);
      elapsed = omega (arith, ok.elapsed);
      counted = omega (arith, ok.counted, length-append seen (d ∷ []));
      least = inr least;
      greatest = inr (greatest_next s.max_call_ns d seen ok.greatest);
    })
