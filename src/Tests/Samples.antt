-- ===== src/Tests/Samples.antt =====
-- `merge_latencies`: the theorems at concrete inputs.
use benchmark_platform.Prelude.{
  ℕ, ◌+◌, ◌-◌, ◌*◌, ◌/◌, ◌<◌, ◌≤◌, ◌≡◌, refl, arith, List, [], ◌∷◌, some, none,
}
use benchmark_platform.Latencies.{Slot, used_from, merge_latencies}
use benchmark_platform.Latencies.Percentile.{at, below, merge_latencies-rank}

-- Two workers with histograms and one without.
abbrev slots : List Slot
slots =
    record { hist = some (0 ∷ 5 ∷ 0 ∷ 1 ∷ []); hist_used = 4 }
    ∷ record { hist = none; hist_used = 0 }
    ∷ record { hist = some (0 ∷ 2 ∷ 4 ∷ 0 ∷ []); hist_used = 3 }
    ∷ []

-- ceil(0.99 n), exactly
abbrev nearest : ℕ → ℕ
nearest n = (n * 99 + 99) / 100

twelve : below slots (used_from slots 0) ≡ 12
unfolding below at used_from
twelve = refl

merge_latencies-rank_example :
    ((merge_latencies nearest slots).samples ≡ below slots (used_from slots 0))
    × (0 < (merge_latencies nearest slots).p99_us)
    × ((merge_latencies nearest slots).p99_us ≤ used_from slots 0)
    × (below slots ((merge_latencies nearest slots).p99_us - 1)
        < nearest (below slots (used_from slots 0)))
    × (nearest (below slots (used_from slots 0))
        ≤ below slots (merge_latencies nearest slots).p99_us)
merge_latencies-rank_example =
    merge_latencies-rank nearest slots (omega (arith, twelve)) (omega (arith, twelve))
      (omega (arith, twelve)) (omega (arith, twelve))
