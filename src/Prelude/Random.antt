-- ===== src/Prelude/Random.antt =====
-- `std::mt19937_64`: the library's generator, of which the engine uses construction from a seed and
-- the next draw.
use Prim.Native.Nat.{ℕ}

pub record Generator : Type 1 where
  pub State : Type 0
  pub seed : ℕ → State
  pub next : State → ℕ × State
