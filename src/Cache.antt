-- ===== src/Cache.antt =====
-- engine/src/cache.cpp: flushing and evicting the caches, the buffers, and what a worker does before
-- each trial (`ColdPrep`). Addresses are numbers below 2^64. The flush instructions are a list of the
-- addresses they are given; the fences after them are left out.
pub mod Lines
pub mod Memory
pub mod Window
pub mod Ownership
pub mod Cold
use benchmark_platform.Prelude.{
  ℕ, zero, suc, ◌+◌, ◌-◌, ◌*◌, ◌/◌, ◌%◌, ◌^◌, ◌≤◌, ◌<◌, Bool, true, false, Option, none, some, List,
  [], ◌∷◌, ltb, leb, ◌==◌, if◌then◌else◌, get_or, String,
}
use benchmark_platform.Prelude.Words.{u64}

abbrev pub cache_line : ℕ
cache_line = 64

abbrev pub huge_page : ℕ
huge_page = 2 * 2 ^ 20

pub data ColdMode : Type 0 where
  mode_none mode_clflush mode_evict : ColdMode

pub data ColdEffect : Type 0 where
  effect_none effect_clflush effect_evict not_applicable : ColdEffect

-- `flush_range_opt` and `flush_range_plain`: the addresses, from the last line down to the first.
unfoldable pub flush_range : (first lines : ℕ) → List ℕ
flush_range first zero = []
flush_range first (suc i) = (first + i * cache_line) ∷ flush_range first i

-- `base & ~(kCacheLine - 1)`
abbrev pub line_of : ℕ → ℕ
line_of addr = addr - addr % cache_line

unfoldable pub flush_lines : (base size : ℕ) → List ℕ
flush_lines base size =
    if size == 0
    then []
    else flush_range (line_of base) (u64 (base + size - line_of base + cache_line - 1) / cache_line)

-- For a negative number of kilobytes the source gives what it gives for 0.
abbrev pub l3_bytes : (l3_kb : ℕ) → ℕ
l3_bytes l3_kb = u64 (l3_kb * 2 ^ 10)

unfoldable pub evict_buffer_bytes : (l3_kb : ℕ) → ℕ
evict_buffer_bytes l3_kb = if ltb 0 (l3_bytes l3_kb) then u64 (2 * l3_bytes l3_kb) else huge_page
