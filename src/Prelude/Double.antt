-- ===== src/Prelude/Double.antt =====
-- `double`. Its arithmetic is not modelled bit by bit: it is a parameter, with the documented facts
-- of IEEE 754 binary64 that the proofs use. `Within k x` says that `x` is a finite positive number
-- from 2^-k to 2^k. Powers of two in that range are doubles and rounding is monotonic, so a product
-- or a quotient of two such numbers is again one, with the exponents added, as long as nothing
-- leaves the range of normal numbers. `Whole n x` says that `x` is the number `n`. Every number below
-- 2^53 is a double, and an operation whose exact result is a double gives it.
use Prim.Native.Nat.{ℕ, ◌+◌, ◌*◌, ◌≤◌, ◌<◌, ◌^◌}

pub record Double : Type 1 where
  pub D : Type 0
  pub from_ℕ : ℕ → D
  pub mul : D → D → D
  pub div : D → D → D
  pub Within : ℕ → D → Type 0
  pub from_ℕ-Within : (n : ℕ) → 0 < n → n < 2 ^ 64 → Within 64 (from_ℕ n)
  pub mul-Within :
      (j k : ℕ) (x y : D) → Within j x → Within k y → j + k ≤ 1022 → Within (j + k) (mul x y)
  pub div-Within :
      (j k : ℕ) (x y : D) → Within j x → Within k y → j + k ≤ 1022 → Within (j + k) (div x y)
  pub Within-mono : (j k : ℕ) (x : D) → Within j x → j ≤ k → k ≤ 1022 → Within k x
  pub Whole : ℕ → D → Type 0
  pub from_ℕ-Whole : (n : ℕ) → n < 2 ^ 53 → Whole n (from_ℕ n)
  pub mul-Whole :
      (a b : ℕ) (x y : D) → Whole a x → Whole b y → a * b < 2 ^ 53 → Whole (a * b) (mul x y)
  pub div-Whole :
      (a b : ℕ) (x y : D) → Whole (a * b) x → Whole b y → 0 < b → a < 2 ^ 53 → Whole a (div x y)
