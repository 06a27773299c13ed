-- ===== src/MemBw/Sum.antt =====
-- The sum over eight lanes.
use benchmark_platform.Prelude.{ℕ, ◌+◌, List, [], ◌∷◌, ◌≡◌, refl, ap, arith}
use benchmark_platform.Prelude.Words.{u64}
use benchmark_platform.MemBw.{Lanes, no_lanes, sum_lanes, sum_rest, sum_words}

-- The plain sum, which does not wrap.
pub sum : List ℕ → ℕ
sum [] = 0
sum (x ∷ xs) = x + sum xs

abbrev lanes_total : Lanes → ℕ
lanes_total s = s.s0 + s.s1 + s.s2 + s.s3 + s.s4 + s.s5 + s.s6 + s.s7

sum_rest_lem : (p : List ℕ) (s0 : ℕ) → u64 (sum_rest p s0) ≡ u64 (s0 + sum p)
unfolding sum_rest sum
sum_rest_lem [] s0 = ap u64 (omega arith)
sum_rest_lem (x ∷ p) s0 = omega (arith, sum_rest_lem p (u64 (s0 + x)))

sum_lanes_lem :
    (p : List ℕ) (s : Lanes)
    → u64 (lanes_total (sum_lanes p s).0 + sum (sum_lanes p s).1) ≡ u64 (lanes_total s + sum p)
unfolding sum_lanes sum
sum_lanes_lem (a ∷ b ∷ c ∷ d ∷ e ∷ f ∷ g ∷ h ∷ p) s = omega (
  arith,
  sum_lanes_lem p (record {
    s0 = u64 (s.s0 + a);
    s1 = u64 (s.s1 + b);
    s2 = u64 (s.s2 + c);
    s3 = u64 (s.s3 + d);
    s4 = u64 (s.s4 + e);
    s5 = u64 (s.s5 + f);
    s6 = u64 (s.s6 + g);
    s7 = u64 (s.s7 + h);
  }),
)
sum_lanes_lem [] s = refl
sum_lanes_lem (a ∷ []) s = refl
sum_lanes_lem (a ∷ b ∷ []) s = refl
sum_lanes_lem (a ∷ b ∷ c ∷ []) s = refl
sum_lanes_lem (a ∷ b ∷ c ∷ d ∷ []) s = refl
sum_lanes_lem (a ∷ b ∷ c ∷ d ∷ e ∷ []) s = refl
sum_lanes_lem (a ∷ b ∷ c ∷ d ∷ e ∷ f ∷ []) s = refl
sum_lanes_lem (a ∷ b ∷ c ∷ d ∷ e ∷ f ∷ g ∷ []) s = refl

-- The sum over eight lanes is the plain sum of the words modulo 2^64.
pub sum_words_lem : (p : List ℕ) → sum_words p ≡ u64 (sum p)
unfolding sum_words
sum_words_lem p =
    let s = (sum_lanes p no_lanes).0 in
    let left = (sum_lanes p no_lanes).1 in
    omega (arith, sum_lanes_lem p no_lanes, sum_rest_lem left s.s0)
