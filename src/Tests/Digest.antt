-- ===== src/Tests/Digest.antt =====
-- `sha256`: the theorems at concrete inputs.
use benchmark_platform.Prelude.{ℕ, ◌/◌, ◌%◌, ◌≡◌, arith, List, [], ◌∷◌, length}
use benchmark_platform.Sha256.{sha256, initial, output}
use benchmark_platform.Sha256.Spec.{padded, compress_blocks}
use benchmark_platform.Sha256.Padding.{sha256-compress_blocks}

-- "abc"
abbrev text : List ℕ
text = 97 ∷ 98 ∷ 99 ∷ []

sha256-compress_blocks_example :
    (length (padded text) % 64 ≡ 0)
    × (sha256 text ≡ output (compress_blocks (length (padded text) / 64) initial (padded text)))
sha256-compress_blocks_example = sha256-compress_blocks text (omega arith)
