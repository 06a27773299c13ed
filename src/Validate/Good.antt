-- ===== src/Validate/Good.antt =====
-- The good machines, results and summaries: those that leave no problem.
use benchmark_platform.Prelude.{
  ℕ, ◌≡◌, ◌↔◌, refl, sym, ◌∙◌, Bool, true, false, not, Option, none, some, List, [], ◌∷◌, All, ◌≤◌,
  ◌&&◌, ◌||◌, Bool-cases, inl, inr, Option-cases, if◌then◌else◌, flatten, arith,
}
use benchmark_platform.Prelude.Int.{ℤ, pos, negsuc, ltb_int}
use benchmark_platform.Prelude.Json.{JsonLib}
use benchmark_platform.Prelude.Text.{codes}
use benchmark_platform.Metric.{workload_of}
use benchmark_platform.Metric.Tables.{workload_eq}
use benchmark_platform.Results.{MachineInfo, ResultRow, SummaryRow}
use benchmark_platform.Validate.Patterns.{is_timestamp, is_machine_id}
use benchmark_platform.Validate.{
  Place, Problem, problem_if, check_params, check_cold, check_huge_pages, is_cold_name,
}
use benchmark_platform.Validate.Fields
use benchmark_platform.Validate.Rows.{result_problems, summary_problems}

-- At least `k`.
abbrev pub AtLeast : ℕ → ℤ → Type 0
AtLeast k (pos n) = k ≤ n
AtLeast k (negsuc n) = ⊥

AtLeast-ltb_int : (k : ℕ) (z : ℤ) → (ltb_int z (pos k) ≡ false) ↔ AtLeast k z
AtLeast-ltb_int k (pos n) = (λ e. ground arith, λ e. ground arith)
AtLeast-ltb_int k (negsuc n) = (λ e. cc, λ e. elim e [ ])

pub flatten_nil {ℓ} : {A : Type ℓ} (ls : List (List A)) → (flatten ls ≡ []) ↔ All (λ l. l ≡ []) ls
flatten_nil [] = (λ e. tt, λ h. refl)
flatten_nil (l ∷ ls) = (
  λ e. let p = (Fields.append_eq_nil l (flatten ls)).0 e in (p.0, (flatten_nil ls).0 p.1),
  λ h. (Fields.append_eq_nil l (flatten ls)).1 (h.0, (flatten_nil ls).1 h.1),
)

pub ok_if : (b : Bool) (p : Problem) → b ≡ true → problem_if (not b) p ≡ []
ok_if b p = (Fields.problem_unless_nil b p).1

pub if_ok : (b : Bool) (p : Problem) → problem_if (not b) p ≡ [] → b ≡ true
if_ok b p = (Fields.problem_unless_nil b p).0

ok_unless : (b : Bool) (p : Problem) → b ≡ false → problem_if b p ≡ []
ok_unless b p = (Fields.problem_if_nil b p).1

unless_ok : (b : Bool) (p : Problem) → problem_if b p ≡ [] → b ≡ false
unless_ok b p = (Fields.problem_if_nil b p).0

-- A statement of one of two equal lists, of the other.
pub iff_along {ℓ κ} :
    {A : Type ℓ} {G : Type κ} {xs ys : List A} → xs ≡ ys → (ys ≡ []) ↔ G → (xs ≡ []) ↔ G
iff_along p h = (λ e. h.0 (sym p ∙ e), λ g. p ∙ h.1 g)

and_true : (a b : Bool) → a ≡ true → b ≡ true → (a && b) ≡ true
and_true a b p q = ground arith

true_and : (a b : Bool) → (a && b) ≡ true → (a ≡ true) × (b ≡ true)
true_and a b h = ground arith

module _ {D : Type 0} (lib : JsonLib D) where
  open lib use {
    Json, object, array, string, integer, unsigned, double, less, is_finite, zero_double,
  }

  abbrev pub IsGoodMachine : MachineInfo → Type 0
  IsGoodMachine m = is_machine_id (codes m.id) ≡ true

  -- A cold mode is one of four texts.
  abbrev cold_ok : Option Json → Bool
  cold_ok none = true
  cold_ok (some v) =
      lib.is_string v && (elim (lib.get_string v) [ none ↦ true | some s ↦ is_cold_name s ])

  abbrev huge_pages_ok : Option Json → Bool
  huge_pages_ok none = true
  huge_pages_ok (some v) = lib.is_boolean v

  abbrev pub params_ok : Json → Bool
  params_ok p =
      not (lib.is_object p)
      || cold_ok (lib.find "cold" p) && huge_pages_ok (lib.find "huge_pages" p)

  check_cold_iff : (w : Place) (o : Option Json) → (check_cold lib w o ≡ []) ↔ (cold_ok o ≡ true)
  unfolding check_cold
  check_cold_iff w none = (λ e. refl, λ e. refl)
  check_cold_iff w (some v) = elim (Bool-cases (lib.is_string v)) [
    | inr other ↦ rw other (λ e. absurd (cc), λ e. absurd (cc))
    | inl text ↦ elim (Option-cases (lib.get_string v)) [
      | inl nothing ↦ rw (text, nothing) (λ e. refl, λ e. refl)
      | inr (s, read) ↦ rw (text, read) (Fields.problem_unless_nil (is_cold_name s) _)
    ]
  ]

  check_huge_pages_iff :
      (w : Place) (o : Option Json) → (check_huge_pages lib w o ≡ []) ↔ (huge_pages_ok o ≡ true)
  unfolding check_huge_pages
  check_huge_pages_iff w none = (λ e. refl, λ e. refl)
  check_huge_pages_iff w (some v) = Fields.problem_unless_nil (lib.is_boolean v) _

  check_params_iff :
      (w : Place) (p : Json) → (check_params lib w (some p) ≡ []) ↔ (params_ok p ≡ true)
  unfolding check_params
  check_params_iff w p = elim (Bool-cases (lib.is_object p)) [
    | inr other ↦ rw other (λ e. refl, λ e. refl)
    | inl object ↦
        let cold = check_cold_iff w (lib.find "cold" p) in
        let huge = check_huge_pages_iff w (lib.find "huge_pages" p) in
        let both =
          Fields.append_eq_nil (check_cold lib w (lib.find "cold" p))
            (check_huge_pages lib w (lib.find "huge_pages" p)) in
        rw object (
          λ e. and_true _ _ (cold.0 ((both.0 e).0)) (huge.0 ((both.0 e).1)),
          λ h. both.1 (cold.1 ((true_and _ _ h).0), huge.1 ((true_and _ _ h).1)),
        )
  ]

  abbrev pub IsGoodResult : ResultRow D Json → Type 0
  IsGoodResult r =
      (workload_eq r.workload (workload_of r.metric) ≡ true)
      × (is_timestamp (codes r.timestamp) ≡ true)
      × AtLeast 1 r.thread_count
      × AtLeast 0 r.trial
      × (is_finite r.value ≡ true)
      × (params_ok r.params ≡ true)

  pub result_problems_iff :
      (i : ℕ) (r : ResultRow D Json) → (flatten (result_problems lib i r) ≡ []) ↔ IsGoodResult r
  result_problems_iff i r = (
    λ e.
        let h = (flatten_nil (result_problems lib i r)).0 e in
        (
          if_ok _ _ h.0,
          if_ok _ _ h.1.0,
          (AtLeast-ltb_int 1 r.thread_count).0 (unless_ok _ _ h.1.1.0),
          (AtLeast-ltb_int 0 r.trial).0 (unless_ok _ _ h.1.1.1.0),
          if_ok _ _ h.1.1.1.1.0,
          (check_params_iff (Place.result i) r.params).0 h.1.1.1.1.1.0,
        ),
    λ h. (flatten_nil (result_problems lib i r)).1 (
      ok_if _ _ h.0,
      (
        ok_if _ _ h.1,
        (
          ok_unless _ _ ((AtLeast-ltb_int 1 r.thread_count).1 h.2),
          (
            ok_unless _ _ ((AtLeast-ltb_int 0 r.trial).1 h.3),
            (ok_if _ _ h.4, ((check_params_iff (Place.result i) r.params).1 h.5, tt)),
          ),
        ),
      ),
    ),
  )

  abbrev pub IsGoodSummary : SummaryRow D → Type 0
  IsGoodSummary s =
      (workload_eq s.workload (workload_of s.metric) ≡ true)
      × AtLeast 1 s.n
      × (less s.stddev zero_double ≡ false)
      × (less s.cov zero_double ≡ false)
      × (less s.mad zero_double ≡ false)
      × (less s.clock_call_ns_start zero_double ≡ false)
      × (less s.clock_call_ns_end zero_double ≡ false)
      × AtLeast 0 s.late_trials
      × (ltb_int s.n s.late_trials ≡ false)
      × AtLeast 1 s.canary_attempts
      × (less s.max s.min ≡ false)
      × (less s.median s.min ≡ false)
      × (less s.max s.median ≡ false)
      × (less s.p95 s.p5 ≡ false)

  late_iff :
      (late n : ℤ) (p q : Problem)
      → ((if ltb_int late (pos 0) then p ∷ [] else problem_if (ltb_int n late) q) ≡ [])
        ↔ (AtLeast 0 late × (ltb_int n late ≡ false))
  late_iff late n p q = elim (Bool-cases (ltb_int late (pos 0))) [
    | inl negative ↦ rw negative (λ e. absurd (cc), λ h. absurd (below late negative h.0))
    | inr other ↦
        rw other (λ e. ((AtLeast-ltb_int 0 late).0 other, unless_ok _ _ e), λ h. ok_unless _ _ h.1)
  ]
    where
      below : (z : ℤ) → ltb_int z (pos 0) ≡ true → AtLeast 0 z → ⊥
      below (pos n) e h = ground arith
      below (negsuc n) e h = h

  pub summary_problems_iff :
      (i : ℕ) (s : SummaryRow D) → (flatten (summary_problems lib i s) ≡ []) ↔ IsGoodSummary s
  summary_problems_iff i s = (
    λ e.
        let h = (flatten_nil (summary_problems lib i s)).0 e in
        let late = (late_iff s.late_trials s.n _ _).0 h.1.1.1.1.1.1.1.0 in
        (
          if_ok _ _ h.0,
          (AtLeast-ltb_int 1 s.n).0 (unless_ok _ _ h.1.0),
          unless_ok _ _ h.1.1.0,
          unless_ok _ _ h.1.1.1.0,
          unless_ok _ _ h.1.1.1.1.0,
          unless_ok _ _ h.1.1.1.1.1.0,
          unless_ok _ _ h.1.1.1.1.1.1.0,
          late.0,
          late.1,
          (AtLeast-ltb_int 1 s.canary_attempts).0 (unless_ok _ _ h.1.1.1.1.1.1.1.1.0),
          unless_ok _ _ h.1.1.1.1.1.1.1.1.1.0,
          unless_ok _ _ h.1.1.1.1.1.1.1.1.1.1.0,
          unless_ok _ _ h.1.1.1.1.1.1.1.1.1.1.1.0,
          unless_ok _ _ h.1.1.1.1.1.1.1.1.1.1.1.1.0,
        ),
    λ g. (flatten_nil (summary_problems lib i s)).1 (
      ok_if _ _ g.0,
      (
        ok_unless _ _ ((AtLeast-ltb_int 1 s.n).1 g.1),
        (
          ok_unless _ _ g.2,
          (
            ok_unless _ _ g.3,
            (
              ok_unless _ _ g.4,
              (
                ok_unless _ _ g.5,
                (
                  ok_unless _ _ g.6,
                  (
                    (late_iff s.late_trials s.n _ _).1 (g.7, g.8),
                    (
                      ok_unless _ _ ((AtLeast-ltb_int 1 s.canary_attempts).1 g.9),
                      (
                        ok_unless _ _ g.10,
                        (ok_unless _ _ g.11, (ok_unless _ _ g.12, (ok_unless _ _ g.13, tt))),
                      ),
                    ),
                  ),
                ),
              ),
            ),
          ),
        ),
      ),
    ),
  )
