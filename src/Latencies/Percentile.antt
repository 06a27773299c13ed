-- ===== src/Latencies/Percentile.antt =====
-- The merged percentile and the ranks of the samples.
use benchmark_platform.Prelude.{
  ℕ, zero, suc, ◌+◌, ◌-◌, ◌^◌, ◌<◌, ◌≤◌, true, false, none, some, List, [], ◌∷◌, ◌==◌, leb, get_or,
  ◌≡◌, ◌⊎◌, inl, inr, refl, ◌∙◌, arith, Bool-cases, Option-cases,
}
use benchmark_platform.Prelude.Words.{u64}
use benchmark_platform.Latencies.{
  Slot, used_from, add_bucket, samples_below, Scan, scan_bucket, scan_below, merge_latencies,
}

-- The samples of a slot in bucket `b`.
abbrev pub bucket : Slot → ℕ → ℕ
bucket s b = elim s.hist [ none ↦ 0 | some h ↦ get_or h b 0 ]

-- The samples of all slots in bucket `b`, and those below it.
unfoldable pub at : List Slot → ℕ → ℕ
at [] b = 0
at (s ∷ slots) b = bucket s b + at slots b

unfoldable pub below : List Slot → ℕ → ℕ
below slots zero = 0
below slots (suc b) = below slots b + at slots b

add_bucket_lem :
    (slots : List Slot) (b acc : ℕ)
    → acc + at slots b < 2 ^ 64
    → add_bucket slots b acc ≡ acc + at slots b
unfolding add_bucket at
add_bucket_lem [] b acc h = omega arith
add_bucket_lem (s ∷ slots) b acc h = elim (Option-cases s.hist) [
  | inl e ↦
      let nothing : bucket s b ≡ 0 = rw e refl in
      rw (e, add_bucket) (add_bucket_lem slots b acc (omega (arith, h)) ∙ omega (arith, nothing))
  | inr (x, e) ↦
      let mine : bucket s b ≡ get_or x b 0 = rw e refl in
      let small : u64 (acc + get_or x b 0) ≡ acc + get_or x b 0 = omega (arith, h, mine) in
      rw (e, add_bucket, small)
        (add_bucket_lem slots b (acc + get_or x b 0) (omega (arith, h, mine)) ∙ omega (arith, mine))
]

samples_below_lem :
    (slots : List Slot) (b : ℕ) → below slots b < 2 ^ 64 → samples_below slots b ≡ below slots b
unfolding samples_below below
samples_below_lem slots zero h = refl
samples_below_lem slots (suc b) h =
    let before = samples_below_lem slots b (omega (arith, h)) in
    rw before (add_bucket_lem slots b (below slots b) h)

-- What the loop has found in the buckets below `b`.
record Found (slots : List Slot) (rank b : ℕ) (s : Scan) : Type 0 where
  cum : s.cum ≡ below slots b
  rank_found :
      ((s.p99_us ≡ 0) × (below slots b < rank))
      ⊎ ((0 < s.p99_us)
          × (s.p99_us ≤ b)
          × (below slots (s.p99_us - 1) < rank)
          × (rank ≤ below slots s.p99_us))

scan_bucket-Found :
    (slots : List Slot) (rank b : ℕ) (s : Scan)
    → below slots b + at slots b < 2 ^ 64
    → Found slots rank b s
    → Found slots rank (suc b) (scan_bucket rank b (at slots b) s)
unfolding scan_bucket below
scan_bucket-Found slots rank b s h old = elim (Bool-cases (at slots b == 0)) [
  | inl z ↦
      let nothing : at slots b ≡ 0 = ground (arith, z) in
      rw (z, scan_bucket)
        (record {
          cum = omega (arith, old.cum, nothing);
          rank_found = elim old.rank_found [
            | inl f ↦ inl (f.0, omega (arith, f.1, nothing))
            | inr f ↦ inr (f.0, omega (arith, f.1), f.2, f.3)
          ];
        })
  | inr nz ↦
      let sum : u64 (s.cum + at slots b) ≡ below slots b + at slots b = omega (arith, old.cum, h) in
      rw (nz, scan_bucket)
        (record {
          cum = sum;
          rank_found = elim old.rank_found [
            | inl f ↦
                let none_yet : (s.p99_us == 0) ≡ true = ground arith in
                elim (Bool-cases (leb rank (below slots b + at slots b))) [
                  | inl reached ↦
                      let last : b + 1 - 1 ≡ b = omega arith in
                      let next : b + 1 ≡ suc b = omega arith in
                      rw (none_yet, sum, reached, last, next)
                        (inr (omega arith, omega arith, f.1, ground (arith, reached)))
                  | inr missed ↦ rw (none_yet, sum, missed) (inl (f.0, ground (arith, missed)))
                ]
            | inr f ↦
                let found : (s.p99_us == 0) ≡ false = ground (arith, f.0) in
                rw found (inr (f.0, omega (arith, f.1), f.2, f.3))
          ];
        })
]

scan_below_lem :
    (slots : List Slot) (rank b : ℕ)
    → 0 < rank
    → below slots b < 2 ^ 64
    → Found slots rank b (scan_below slots rank b)
unfolding scan_below below
scan_below_lem slots rank zero pos h = record { cum = refl; rank_found = inl (refl, pos) }
scan_below_lem slots rank (suc b) pos h =
    let here : add_bucket slots b 0 ≡ at slots b =
      add_bucket_lem slots b 0 (omega (arith, h)) ∙ omega arith in
    rw here (
      scan_bucket-Found slots rank b (scan_below slots rank b) h
        (scan_below_lem slots rank b pos (omega (arith, h))))

below_pos : (slots : List Slot) (k : ℕ) → 0 < below slots k → (k == 0) ≡ false
unfolding below
below_pos slots zero h = absurd (omega arith)
below_pos slots (suc k) h = ground arith

-- If the slots hold samples in the buckets that are used, fewer than 2^64, and the rank is from 1
-- to the number of samples, the merged percentile is the upper edge of the bucket in which the
-- sample of that rank lies, and the summary has the number of samples.
pub merge_latencies-rank :
    (rank_of : ℕ → ℕ) (slots : List Slot)
    → 0 < below slots (used_from slots 0)
    → below slots (used_from slots 0) < 2 ^ 64
    → 0 < rank_of (below slots (used_from slots 0))
    → rank_of (below slots (used_from slots 0)) ≤ below slots (used_from slots 0)
    → ((merge_latencies rank_of slots).samples ≡ below slots (used_from slots 0))
      × (0 < (merge_latencies rank_of slots).p99_us)
      × ((merge_latencies rank_of slots).p99_us ≤ used_from slots 0)
      × (below slots ((merge_latencies rank_of slots).p99_us - 1)
          < rank_of (below slots (used_from slots 0)))
      × (rank_of (below slots (used_from slots 0))
          ≤ below slots (merge_latencies rank_of slots).p99_us)
unfolding merge_latencies
merge_latencies-rank rank_of slots sampled_once h pos le =
    let used = used_from slots 0 in
    let total = below slots used in
    let samples : samples_below slots used ≡ total = samples_below_lem slots used h in
    let is_used : (used == 0) ≡ false = below_pos slots used sampled_once in
    let sampled : (total == 0) ≡ false = ground arith in
    let scan = scan_below slots (rank_of total) used in
    let found = scan_below_lem slots (rank_of total) used pos h in
    rw (samples, is_used, sampled)
      (elim found.rank_found [
        | inl f ↦ absurd (omega (arith, f.1, le))
        | inr f ↦ (refl, f.0, f.1, f.2, f.3)
      ])
