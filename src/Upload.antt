-- ===== src/Upload.antt =====
-- engine/src/main.cpp: `post_envelope`, the split of a run's results into requests. The results are
-- the items of a list, each `std::size_t` wraps at 2^64. The request itself is `post_json`
-- (engine/src/http.cpp); the output of the replies is left out, as are the other parts of an
-- envelope, which every request repeats, but for the summary, which the first alone has.
pub mod Parts
use benchmark_platform.Prelude.{
  ℕ, zero, suc, ◌+◌, ◌-◌, ◌*◌, ◌/◌, ◌%◌, ◌^◌, min, Bool, true, false, List, [], ◌∷◌, ◌++◌, ◌==◌,
  ltb, not, ◌&&◌, if◌then◌else◌, length, take, drop,
}
use benchmark_platform.Prelude.Words.{u64}

-- The part of an envelope that a request carries.
pub record Part {ℓ} (A : Type ℓ) : Type ℓ where
  pub results : List A
  pub has_summary : Bool

abbrev pub chunk_of : (total chunk_results : ℕ) → ℕ
chunk_of total chunk_results = if chunk_results == 0 then total else chunk_results

abbrev pub chunks_of : (total chunk : ℕ) → ℕ
chunks_of total chunk = if total == 0 then 1 else u64 (total + chunk + 2 ^ 64 - 1) / chunk

module _ {ℓ} {A : Type ℓ} (results : List A) (chunk chunks : ℕ) where
  -- The part of the request number `c`.
  pub part_of : ℕ → Part A
  part_of c =
      if ltb 1 chunks
      then record {
        results =
            take (min (u64 (u64 (c * chunk) + chunk)) (length results) - u64 (c * chunk))
              (drop (u64 (c * chunk)) results);
        has_summary = c == 0;
      }
      else record { results = results; has_summary = true }

  -- The parts of the first `c` requests.
  pub parts_below : ℕ → List (Part A)
  parts_below zero = []
  parts_below (suc c) = parts_below c ++ part_of c ∷ []

-- The parts that are sent if no request fails.
pub parts {ℓ} : {A : Type ℓ} → List A → ℕ → List (Part A)
parts results chunk_results =
    let total = length results in
    let chunk = chunk_of total chunk_results in
    let chunks = chunks_of total chunk in parts_below results chunk chunks chunks
