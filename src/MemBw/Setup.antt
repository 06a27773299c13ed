-- ===== src/MemBw/Setup.antt =====
-- What `setup` leaves: the invariant of the workload.
use native.Mathlib.Nat.{div-mul-le_self, lt-div-mul-add}
use benchmark_platform.Prelude.{
  ℕ, zero, suc, ◌+◌, ◌*◌, ◌/◌, ◌%◌, ◌^◌, ◌<◌, ◌≤◌, max, Bool, Option, length, ◌==◌, ◌≡◌, refl, ◌∙◌,
  ap, arith, Bool-cases, inl, inr, ==_iff,
}
use benchmark_platform.Prelude.Words.{u64}
use benchmark_platform.Metric.{Metric}
use benchmark_platform.MemBw.{
  Mode, read, write, copy, total_bytes, buffer_bytes_for, random_words, MemBwWorkload, setup,
  min_batch_bytes, mode_of, xorshift,
}

-- How many buffers of `bytes` the allocation holds.
abbrev pub halves : Mode → ℕ
halves copy = 2
halves _ = 1

pub record IsWellFormed (w : MemBwWorkload) : Type 0 where
  pub whole_lines : w.bytes % 64 ≡ 0
  pub some_line : 64 ≤ w.bytes
  pub size : length w.buf ≡ halves w.mode * (w.bytes / 8)
  pub some_pass : 0 < w.passes
  pub batch : w.batch_bytes ≡ w.passes * w.bytes

length-random_words : (n x : ℕ) → length (random_words n x).0 ≡ n
unfolding random_words
length-random_words zero x = refl
length-random_words (suc n) x = ap suc (length-random_words n (xorshift x))

buffer_bounds :
    (ws : ℕ)
    → ws < 2 ^ 63
    → (buffer_bytes_for ws % 64 ≡ 0) × (64 ≤ buffer_bytes_for ws) × (buffer_bytes_for ws < 2 ^ 63)
unfolding buffer_bytes_for
buffer_bounds ws h = ground arith

-- Passes over `b` bytes until at least `min_batch_bytes` are moved, but for less than one pass.
passes_bounds :
    (b : ℕ)
    → 64 ≤ b
    → (max 1 (min_batch_bytes / max b 1) * b ≤ max b min_batch_bytes)
      × (min_batch_bytes < max 1 (min_batch_bytes / max b 1) * b + b)
passes_bounds b h =
    let same : max b 1 ≡ b = omega arith in
    let q = min_batch_bytes / b in
    let low : q * b ≤ min_batch_bytes = div-mul-le_self min_batch_bytes b in
    let high : min_batch_bytes < q * b + b = lt-div-mul-add (omega arith) in
    rw same (elim (Bool-cases (q == 0)) [
      | inl z ↦
          let none : q ≡ 0 = (==_iff q 0).0 z in
          let nothing : q * b ≡ 0 = grind (arith, none) in
          let one : max 1 q ≡ 1 = omega arith in rw one (omega arith, omega arith)
      | inr nz ↦
          let some : 0 < q = ground (arith, ==_iff q 0) in
          let all : max 1 q ≡ q = omega arith in rw all (omega arith, omega arith)
    ])

total_halves :
    (mode : Mode) (b : ℕ) → b % 64 ≡ 0 → b < 2 ^ 63 → total_bytes mode b / 8 ≡ halves mode * (b / 8)
total_halves read b h p = omega arith
total_halves write b h p = omega arith
total_halves copy b h p = omega arith

-- For a working set below 2^63 bytes the set-up of the bandwidth workload leaves a whole number
-- of cache lines, at least one, for each half, at least one pass, and a batch of passes times
-- bytes that does not wrap: it is at most 4 MiB or one buffer, whichever is more, and one more
-- pass would exceed 4 MiB.
pub setup-IsWellFormed :
    (have_nt : Bool) (w : MemBwWorkload) (m : Metric) (seed thread_index ws : ℕ) (nt : Option Bool)
    → ws < 2 ^ 63
    → IsWellFormed (setup have_nt w m seed thread_index ws nt)
      × ((setup have_nt w m seed thread_index ws nt).batch_bytes
          ≤ max (setup have_nt w m seed thread_index ws nt).bytes min_batch_bytes)
      × (min_batch_bytes
          < (setup have_nt w m seed thread_index ws nt).batch_bytes
            + (setup have_nt w m seed thread_index ws nt).bytes)
unfolding setup
setup-IsWellFormed have_nt w m seed thread_index ws nt h =
    let b = buffer_bytes_for ws in
    let (lines, some, small) = buffer_bounds ws h in
    let (least, most) = passes_bounds b some in
    let whole : u64 (max 1 (min_batch_bytes / max b 1) * b)
        ≡ max 1 (min_batch_bytes / max b 1) * b =
      omega arith in
    (
      record {
        whole_lines = lines;
        some_line = some;
        size = length-random_words _ _ ∙ total_halves (mode_of m) b lines small;
        some_pass = omega arith;
        batch = whole;
      },
      omega arith,
      omega arith,
    )
