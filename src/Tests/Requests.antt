-- ===== src/Tests/Requests.antt =====
-- The split of the results into requests, at a concrete input.
use benchmark_platform.Prelude.{ℕ, ◌≡◌, arith, List, [], ◌∷◌}
use benchmark_platform.Upload.{parts}
use benchmark_platform.Upload.Parts.{carried, carried-parts}

abbrev five : List ℕ
five = 1 ∷ 2 ∷ 3 ∷ 4 ∷ 5 ∷ []

carried-parts_example : carried (parts five 2) ≡ five
carried-parts_example = carried-parts five 2 (omega arith) (omega arith)
