-- ===== src/Upload/Parts.antt =====
-- The parts of the requests, and the results of the run.
use native.Mathlib.Nat.{div-mul-le_self, lt-div-mul-add}
use benchmark_platform.Prelude.{
  ℕ, zero, suc, ◌+◌, ◌-◌, ◌*◌, ◌/◌, ◌^◌, ◌<◌, ◌≤◌, min, true, false, List, [], ◌∷◌, ◌++◌, ◌==◌, ltb,
  length, mul_mono, take, drop, ◌≡◌, refl, ap, ap₂, sym, ◌∙◌, arith, Bool-cases, inl, inr,
  append-nil, append_assoc, length-drop, ==_iff, ltb→lt, take_more, take_full,
}
use benchmark_platform.Prelude.Words.{u64}
use benchmark_platform.Upload.{Part, chunk_of, chunks_of, part_of, parts_below, parts}

-- The results that the parts carry, one part after the other.
pub carried {ℓ} : {A : Type ℓ} → List (Part A) → List A
carried [] = []
carried (p ∷ ps) = p.results ++ carried ps

module _ {ℓ} {A : Type ℓ} where
  carried-append_one :
      (ps : List (Part A)) (p : Part A) → carried (ps ++ p ∷ []) ≡ carried ps ++ p.results
  unfolding carried
  carried-append_one [] p = append-nil p.results
  carried-append_one (q ∷ ps) p =
      ap (λ l. q.results ++ l) (carried-append_one ps p)
      ∙ sym (append_assoc q.results (carried ps) p.results)

  -- To take no more than there is.
  take-min : (n : ℕ) (xs : List A) → take (min n (length xs)) xs ≡ take n xs
  take-min zero xs = let e : min 0 (length xs) ≡ 0 = omega arith in rw e refl
  take-min (suc n) [] = let e : min (suc n) 0 ≡ 0 = omega arith in rw e refl
  take-min (suc n) (x ∷ xs) =
      let e : min (suc n) (suc (length xs)) ≡ suc (min n (length xs)) = omega arith in
      rw e (ap (λ l. x ∷ l) (take-min n xs))

  module _ (results : List A) (chunk chunks : ℕ) (many : 1 < chunks) where
    part_of_lem :
        (c : ℕ)
        → c * chunk < length results
        → length results + chunk < 2 ^ 64
        → (part_of results chunk chunks c).results ≡ take chunk (drop (c * chunk) results)
    unfolding part_of
    part_of_lem c h fits =
        let several : ltb 1 chunks ≡ true = ground arith in
        let begin : u64 (c * chunk) ≡ c * chunk = omega (arith, h, fits) in
        let end : min (u64 (c * chunk + chunk)) (length results) - c * chunk
            ≡ min chunk (length (drop (c * chunk) results)) =
          omega (arith, h, fits, length-drop (c * chunk) results) in
        rw (several, begin, end) (take-min chunk (drop (c * chunk) results))

    carried-parts_below :
        (c : ℕ)
        → c ≤ chunks
        → chunks * chunk < length results + chunk
        → length results + chunk < 2 ^ 64
        → carried (parts_below results chunk chunks c) ≡ take (c * chunk) results
    unfolding parts_below carried
    carried-parts_below zero h small fits = let e : 0 * chunk ≡ 0 = grind arith in rw e refl
    carried-parts_below (suc c) h small fits =
        let below : suc c * chunk ≤ chunks * chunk = mul_mono (suc c) chunks chunk h in
        let next : suc c * chunk ≡ c * chunk + chunk = grind arith in
        carried-append_one (parts_below results chunk chunks c) (part_of results chunk chunks c)
        ∙ ap₂ (λ x y. x ++ y) (carried-parts_below c (omega arith) small fits)
            (part_of_lem c (omega (arith, below, next, small)) fits)
        ∙ take_more (c * chunk) chunk results
        ∙ ap (λ k. take k results) (sym next)

  one_part :
      (results : List A) (chunk chunks : ℕ)
      → chunks ≡ 1
      → carried (parts_below results chunk chunks chunks) ≡ results
  unfolding parts_below carried part_of
  one_part results chunk chunks e = rw e (append-nil results)

not_many : (k : ℕ) → ltb 1 k ≡ false → k ≤ 1
not_many k h = ground arith

-- How many chunks there are: enough for all results, the last of them not empty.
chunks_of_lem :
    (total chunk : ℕ)
    → 0 < total
    → 0 < chunk
    → total + chunk < 2 ^ 64
    → (0 < chunks_of total chunk)
      × (total ≤ chunks_of total chunk * chunk)
      × (chunks_of total chunk * chunk < total + chunk)
chunks_of_lem total chunk some_result some_chunk fits =
    let x = total + chunk - 1 in
    let q = x / chunk in
    let low : q * chunk ≤ x = div-mul-le_self x chunk in
    let high : x < q * chunk + chunk = lt-div-mul-add some_chunk in
    let full : (total == 0) ≡ false = ground arith in
    let round : u64 (total + chunk + 2 ^ 64 - 1) ≡ x = omega (arith, fits) in
    rw (full, round)
      (
        elim (Bool-cases (q == 0)) [
          | inl z ↦
              let none : q ≡ 0 = (==_iff q 0).0 z in
              let nothing : q * chunk ≡ 0 = grind (arith, none) in absurd (omega arith)
          | inr nz ↦ ground (arith, ==_iff q 0)
        ],
        omega arith,
        omega arith,
      )

-- The requests carry the results of the run, all of them, each once and in order, if the number
-- of results and the size of a chunk are below 2^63.
pub carried-parts {ℓ} :
    {A : Type ℓ} (results : List A) (chunk_results : ℕ)
    → length results < 2 ^ 63
    → chunk_results < 2 ^ 63
    → carried (parts results chunk_results) ≡ results
unfolding parts
carried-parts results chunk_results small small_chunk =
    let total = length results in
    let chunk = chunk_of total chunk_results in
    let chunks = chunks_of total chunk in
    elim (Bool-cases (total == 0)) [
      | inl z ↦ let one : chunks ≡ 1 = rw z refl in one_part results chunk chunks one
      | inr nz ↦
          let some_result : 0 < total = ground arith in
          let some_chunk : 0 < chunk = ground arith in
          let fits : total + chunk < 2 ^ 64 = ground arith in
          let (some_part, enough, tight) = chunks_of_lem total chunk some_result some_chunk fits in
          elim (Bool-cases (ltb 1 chunks)) [
            | inl several ↦
                let many : 1 < chunks = ltb→lt 1 chunks several in
                carried-parts_below results chunk chunks many chunks (omega arith) tight fits
                ∙ take_full (chunks * chunk) results enough
            | inr single ↦
                let most : chunks ≤ 1 = not_many chunks single in
                one_part results chunk chunks (omega (arith, most, some_part))
          ]
    ]
