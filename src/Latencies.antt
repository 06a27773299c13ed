-- ===== src/Latencies.antt =====
-- engine/src/runner.cpp: `merge_latencies`, the percentile over the workers' histograms.
-- The rank is computed in floating point; it is the parameter `rank_of`, from the number of samples.
-- The doubles of the summary are whole numbers of microseconds, and natural numbers here.
pub mod Percentile
use benchmark_platform.Prelude.{
  ℕ, zero, suc, ◌+◌, ◌%◌, ◌^◌, max, Bool, true, false, Option, none, some, List, [], ◌∷◌, ◌==◌, leb,
  ltb, ◌&&◌, if◌then◌else◌, get_or,
}
use benchmark_platform.Prelude.Words.{u64}

abbrev pub latency_buckets : ℕ
latency_buckets = 1_000_000

-- The members of a worker's slot that are read here.
pub record Slot : Type 0 where
  pub hist : Option (List ℕ)
  pub hist_used : ℕ

pub record LatencySummary : Type 0 where
  pub p99_us : ℕ
  pub samples : ℕ
  pub overflow : ℕ
  pub min_us : ℕ
  pub max_us : ℕ

abbrev pub no_latencies : LatencySummary
no_latencies = record { p99_us = 0; samples = 0; overflow = 0; min_us = 0; max_us = 0 }

-- The greatest `hist_used` of the slots with a histogram, from `used`.
unfoldable pub used_from : List Slot → ℕ → ℕ
used_from [] used = used
used_from (s ∷ slots) used = elim s.hist [
  | none ↦ used_from slots used
  | some h ↦ used_from slots (max used s.hist_used)
]

-- `for (const Slot& s : slots) if (s.hist != nullptr) acc += s.hist[b]`
pub add_bucket : List Slot → ℕ → ℕ → ℕ
add_bucket [] b acc = acc
add_bucket (s ∷ slots) b acc = elim s.hist [
  | none ↦ add_bucket slots b acc
  | some h ↦ add_bucket slots b (u64 (acc + get_or h b 0))
]

-- The loop that counts the samples of the buckets below `used`.
pub samples_below : List Slot → ℕ → ℕ
samples_below slots zero = 0
samples_below slots (suc b) = add_bucket slots b (samples_below slots b)

-- What the last loop carries from bucket to bucket.
pub record Scan : Type 0 where
  pub cum : ℕ
  pub have_min : Bool
  pub p99_us : ℕ
  pub min_us : ℕ
  pub max_us : ℕ

-- One bucket of the last loop, with `here` samples.
pub scan_bucket : ℕ → (b here : ℕ) → Scan → Scan
scan_bucket rank b here s = if here == 0 then s else record {
  cum = u64 (s.cum + here);
  have_min = true;
  p99_us = if s.p99_us == 0 && leb rank (u64 (s.cum + here)) then b + 1 else s.p99_us;
  min_us = if s.have_min then s.min_us else b + 1;
  max_us = b + 1;
}

pub scan_below : List Slot → (rank used : ℕ) → Scan
scan_below slots rank zero = record {
  cum = 0;
  have_min = false;
  p99_us = 0;
  min_us = 0;
  max_us = 0;
}
scan_below slots rank (suc b) = scan_bucket rank b (add_bucket slots b 0) (scan_below slots rank b)

pub merge_latencies : (rank_of : ℕ → ℕ) → List Slot → LatencySummary
merge_latencies rank_of slots =
    let used = used_from slots 0 in
    let samples = samples_below slots used in
    let s = scan_below slots (rank_of samples) used in
    if used == 0
    then no_latencies
    else (if samples == 0 then no_latencies else record {
      p99_us = s.p99_us;
      samples = samples;
      overflow = if ltb latency_buckets used then add_bucket slots latency_buckets 0 else 0;
      min_us = s.min_us;
      max_us = s.max_us;
    })
