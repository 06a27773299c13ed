-- ===== src/Cache/Lines.antt =====
-- `flush_lines`: which lines are flushed.
use benchmark_platform.Prelude.{
  ℕ, zero, suc, ◌+◌, ◌-◌, ◌*◌, ◌/◌, ◌%◌, ◌<◌, ◌^◌, ◌≡◌, arith, Bool, ◌&&◌, ltb, leb, ◌==◌,
  if◌then◌else◌,
}
use benchmark_platform.Prelude.Words.{u64}
use benchmark_platform.MemLatency.Cycle.{count}
use benchmark_platform.Cache.{cache_line, flush_range, line_of, flush_lines}

-- Whether `a` is the address of one of so many lines from `first` on.
abbrev on_lines : (first lines a : ℕ) → Bool
on_lines first lines a = leb first a && ltb a (first + lines * 64) && ((a - first) % 64 == 0)

count-flush_range :
    (first lines a : ℕ)
    → count a (flush_range first lines) ≡ (if on_lines first lines a then 1 else 0)
unfolding flush_range
count-flush_range first zero a = ground arith
count-flush_range first (suc i) a = ground (arith, count-flush_range first i a)

-- Whether `a` is the address of a line that overlaps the region.
abbrev pub overlaps : (base size a : ℕ) → Bool
overlaps base size a = (a % 64 == 0) && ltb base (a + 64) && ltb a (base + size)

-- For a region that is not empty and does not come within a line of the end of the address space,
-- the flush takes each line that overlaps the region exactly once, and no other line.
pub flush_lines-count :
    (base size a : ℕ)
    → 0 < size
    → base + size + 64 < 2 ^ 64
    → count a (flush_lines base size) ≡ (if overlaps base size a then 1 else 0)
unfolding flush_lines
flush_lines-count base size a h fits =
    let lines : ℕ = u64 (base + size - line_of base + cache_line - 1) / cache_line in
    ground (arith, count-flush_range (line_of base) lines a)
