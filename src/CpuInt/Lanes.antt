-- ===== src/CpuInt/Lanes.antt =====
-- `run_batch` of the integer workload: the lanes do not depend on each other.
use benchmark_platform.Prelude.{ℕ, zero, suc, ◌≡◌, refl, sym, ap₂, ◌∙◌, List, [], ◌∷◌, map, map-map}
use benchmark_platform.CpuInt.{CpuIntWorkload, iters_per_batch, int_op, run_iters, run_batch}

-- The rounds of one lane alone.
pub lane_iters : (k left i : ℕ) → ℕ → ℕ
lane_iters k zero i a = a
lane_iters k (suc left) i a = lane_iters k left (suc i) (int_op k i a)

map_self : (f : ℕ → ℕ) → ((a : ℕ) → f a ≡ a) → (xs : List ℕ) → map f xs ≡ xs
map_self f h [] = refl
map_self f h (x ∷ xs) = ap₂ ◌∷◌ (h x) (map_self f h xs)

run_iters-lanes :
    (k left i : ℕ) (acc : List ℕ) → run_iters k left i acc ≡ map (lane_iters k left i) acc
unfolding run_iters lane_iters
run_iters-lanes k zero i acc = sym (map_self (lane_iters k zero i) (λ a. refl) acc)
run_iters-lanes k (suc left) i acc =
    run_iters-lanes k left (suc i) (map (int_op k i) acc)
    ∙ map-map (lane_iters k left (suc i)) (int_op k i) acc

-- A batch takes every lane through all of its rounds, as if it were alone.
pub run_batch-lanes :
    (w : CpuIntWorkload) → (run_batch w).0.lanes_ ≡ map (lane_iters w.k_ iters_per_batch 0) w.lanes_
unfolding run_batch
run_batch-lanes w = run_iters-lanes w.k_ iters_per_batch 0 w.lanes_
