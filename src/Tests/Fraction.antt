-- ===== src/Tests/Fraction.antt =====
-- Fractions as an instance of `Double`: exact arithmetic meets its laws.
use native.Mathlib.Nat.{pow-succ', pow-le-pow_right}
use benchmark_platform.Prelude.{ℕ, zero, suc, ◌+◌, ◌*◌, ◌^◌, ◌≤◌, ◌<◌, ◌≡◌, arith}
use benchmark_platform.Prelude.Double.{Double}

pow-add : (j k : ℕ) → 2 ^ (j + k) ≡ 2 ^ j * 2 ^ k
pow-add zero k = let e : 0 + k ≡ k = omega arith in rw e (omega arith)
pow-add (suc j) k =
    let e : suc j + k ≡ suc (j + k) = omega arith in
    rw (e, pow-succ' 2 (j + k), pow-succ' 2 j, pow-add j k) (omega arith)

pub record Fraction : Type 0 where
  pub num : ℕ
  pub den : ℕ

abbrev pub Within : ℕ → Fraction → Type 0
Within k q = (0 < q.num) × (0 < q.den) × (q.num ≤ q.den * 2 ^ k) × (q.den ≤ q.num * 2 ^ k)

mul_mono : (a b c d : ℕ) → a ≤ b → c ≤ d → a * c ≤ b * d
mul_mono a b c d p q = grind arith

pub scale : (j k a b c d : ℕ) → a ≤ b * 2 ^ j → c ≤ d * 2 ^ k → a * c ≤ b * d * 2 ^ (j + k)
scale j k a b c d p q = rw (pow-add j k) (omega (arith, mul_mono a (b * 2 ^ j) c (d * 2 ^ k) p q))

pub mul_pos : (a b : ℕ) → 0 < a → 0 < b → 0 < a * b
mul_pos a b p q = grind arith

pub mono : (j k a b : ℕ) → a ≤ b * 2 ^ j → j ≤ k → a ≤ b * 2 ^ k
mono j k a b p q =
    omega (arith, mul_mono b b (2 ^ j) (2 ^ k) (omega arith) (pow-le-pow_right (omega arith) q))

pub below : (n : ℕ) → 0 < n → 1 ≤ n * 2 ^ 64
below n p = omega arith

abbrev pub Whole : ℕ → Fraction → Type 0
Whole n q = (0 < q.den) × (q.num ≡ n * q.den)

pub mul_whole : (a b n d m e : ℕ) → n ≡ a * d → m ≡ b * e → n * m ≡ a * b * (d * e)
mul_whole a b n d m e p q = rw (p, q) (grind arith)

pub div_whole : (a b n d m e : ℕ) → n ≡ a * b * d → m ≡ b * e → n * e ≡ a * (d * m)
div_whole a b n d m e p q = rw (p, q) (grind arith)

pub div_pos : (b m e : ℕ) → 0 < b → 0 < e → m ≡ b * e → 0 < m
div_pos b m e p q r = rw (r) (mul_pos b e p q)

abbrev pub fractions : Double
fractions = record {
  D = Fraction;
  from_ℕ = λ n. record { num = n; den = 1 };
  mul = λ x y. record { num = x.num * y.num; den = x.den * y.den };
  div = λ x y. record { num = x.num * y.den; den = x.den * y.num };
  Within = Within;
  from_ℕ-Within = λ n p q. (p, omega arith, omega arith, below n p);
  mul-Within = λ j k x y p q _. (
    mul_pos _ _ p.0 q.0,
    mul_pos _ _ p.1 q.1,
    scale j k _ _ _ _ p.2 q.2,
    scale j k _ _ _ _ p.3 q.3,
  );
  div-Within = λ j k x y p q _. (
    mul_pos _ _ p.0 q.1,
    mul_pos _ _ p.1 q.0,
    scale j k _ _ _ _ p.2 q.3,
    scale j k _ _ _ _ p.3 q.2,
  );
  Within-mono = λ j k x p q _. (p.0, p.1, mono j k _ _ p.2 q, mono j k _ _ p.3 q);
  Whole = Whole;
  from_ℕ-Whole = λ n p. (omega arith, omega arith);
  mul-Whole = λ a b x y p q _. (mul_pos _ _ p.0 q.0, mul_whole a b _ _ _ _ p.1 q.1);
  div-Whole = λ a b x y p q h _.
      (mul_pos _ _ p.0 (div_pos b y.num y.den h q.0 q.1), div_whole a b _ _ _ _ p.1 q.1);
}
