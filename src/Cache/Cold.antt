-- ===== src/Cache/Cold.antt =====
-- engine/src/cache.cpp: the cold modes and `ColdPrep`. The scratch buffer is its size; evicting is the
-- reads of one word per line over it.
use benchmark_platform.Prelude.{
  ℕ, zero, suc, ◌+◌, ◌-◌, ◌*◌, ◌%◌, ◌^◌, ◌<◌, ◌≤◌, ◌≡◌, ◌⊎◌, refl, arith, ◌&&◌, ◌||◌, List, [], ◌∷◌,
  ltb, leb, ◌==◌, if◌then◌else◌, Bool-cases, inl, inr,
}
use benchmark_platform.MemLatency.Cycle.{count}
use benchmark_platform.Cache.{
  ColdMode, ColdEffect, cache_line, flush_lines, l3_bytes, evict_buffer_bytes,
}
use benchmark_platform.Cache.Lines.{overlaps, flush_lines-count}

-- The offsets that `stream_read` loads from, for a buffer of `size` bytes, from `off` on.
unfoldable pub stream_from : (fuel off size : ℕ) → List ℕ
stream_from zero off size = []
stream_from (suc fuel) off size =
    let more = stream_from fuel (off + cache_line) size in
    if leb (off + 8) size then off ∷ more else []

unfoldable pub stream_read : (size : ℕ) → List ℕ
stream_read size = stream_from size 0 size

pub record ColdPrep : Type 0 where
  pub requested : ColdMode
  pub effect : ColdEffect
  pub bytes : ℕ
  pub scratch_bytes : ℕ

unfoldable pub setup : (requested : ColdMode) (l3_kb region_bytes : ℕ) → ColdPrep
setup requested l3_kb region_bytes = elim requested [
  | ColdMode.mode_none ↦ record {
    requested = ColdMode.mode_none;
    effect = ColdEffect.effect_none;
    bytes = 0;
    scratch_bytes = 0;
  }
  | ColdMode.mode_clflush ↦
      if region_bytes == 0 || (ltb 0 (l3_bytes l3_kb) && ltb (l3_bytes l3_kb) region_bytes)
      then record {
        requested = ColdMode.mode_clflush;
        effect = ColdEffect.not_applicable;
        bytes = 0;
        scratch_bytes = 0;
      }
      else record {
        requested = ColdMode.mode_clflush;
        effect = ColdEffect.effect_clflush;
        bytes = region_bytes;
        scratch_bytes = 0;
      }
  | ColdMode.mode_evict ↦ record {
    requested = ColdMode.mode_evict;
    effect = ColdEffect.effect_evict;
    bytes = evict_buffer_bytes l3_kb;
    scratch_bytes = evict_buffer_bytes l3_kb;
  }
]

-- What `prepare` does to the region at `base`: the lines it flushes, and the offsets it reads in the
-- scratch buffer.
unfoldable pub prepare : ColdPrep → (base size : ℕ) → List ℕ × List ℕ
prepare c base size = elim c.effect [
  | ColdEffect.effect_none ↦ ([], [])
  | ColdEffect.not_applicable ↦ ([], [])
  | ColdEffect.effect_clflush ↦ (flush_lines base size, [])
  | ColdEffect.effect_evict ↦ ([], stream_read c.scratch_bytes)
]

-- Twice the last-level cache, if its size is known, and else a huge page.
abbrev pub IsScratch : (l3_kb bytes : ℕ) → Type 0
IsScratch l3_kb bytes =
    ((l3_bytes l3_kb ≡ 0) × (bytes ≡ 2 ^ 21))
    ⊎ ((0 < l3_bytes l3_kb) × (bytes ≡ 2 * l3_bytes l3_kb % 2 ^ 64))

evict_buffer_bytes-IsScratch : (l3_kb : ℕ) → IsScratch l3_kb (evict_buffer_bytes l3_kb)
unfolding evict_buffer_bytes
evict_buffer_bytes-IsScratch l3_kb = ground arith

count-stream_from :
    (fuel off size a : ℕ)
    → size ≤ off + fuel * 64
    → count a (stream_from fuel off size)
      ≡ (if leb off a && ((a - off) % 64 == 0) && leb (a + 8) size then 1 else 0)
unfolding stream_from
count-stream_from zero off size a enough = ground arith
count-stream_from (suc fuel) off size a enough =
    ground (arith, count-stream_from fuel (off + cache_line) size a)

count-stream_read :
    (size a : ℕ) → count a (stream_read size) ≡ (if (a % 64 == 0) && leb (a + 8) size then 1 else 0)
unfolding stream_read
count-stream_read size a = ground (arith, count-stream_from size 0 size a)

-- What is claimed of the effect: that a region was flushed means that it is not empty, that it fits
-- the last-level cache if the size of that is known, and that each of its lines is flushed once; that it was
-- evicted, that a word is read from each line of the scratch buffer, once.
abbrev pub Truthful : (effect : ColdEffect) (l3_kb base size a : ℕ) → List ℕ × List ℕ → Type 0
Truthful ColdEffect.effect_clflush l3_kb base size a done =
    (0 < size)
    × ((l3_bytes l3_kb ≡ 0) ⊎ (size ≤ l3_bytes l3_kb))
    × (count a done.0 ≡ (if overlaps base size a then 1 else 0))
Truthful ColdEffect.effect_evict l3_kb base size a done =
    (done.0 ≡ [])
    × (bytes : ℕ) × IsScratch l3_kb bytes
    × (count a done.1 ≡ (if (a % 64 == 0) && leb (a + 8) bytes then 1 else 0))
Truthful ColdEffect.effect_none l3_kb base size a done = (done.0 ≡ []) × (done.1 ≡ [])
Truthful ColdEffect.not_applicable l3_kb base size a done =
    (done.0 ≡ []) × (done.1 ≡ []) × ((size ≡ 0) ⊎ ((0 < l3_bytes l3_kb) × (l3_bytes l3_kb < size)))

-- The effects that a mode may have.
abbrev pub Serves : ColdMode → ColdEffect → Type 0
Serves ColdMode.mode_none effect = effect ≡ ColdEffect.effect_none
Serves ColdMode.mode_evict effect = effect ≡ ColdEffect.effect_evict
Serves ColdMode.mode_clflush effect =
    (effect ≡ ColdEffect.effect_clflush) ⊎ (effect ≡ ColdEffect.not_applicable)

-- For each mode, the effect that a result reports is one of the mode, and it is what prepare does
-- to the region of the set-up, whose addresses do not wrap: flushed means not empty, fitting the
-- last-level cache if its size is known, and each of its lines flushed once; not applicable means
-- that nothing is done and that the region is empty or larger than the cache; evicted means that
-- a word is read from each line of the scratch buffer that holds one, once, and that the buffer
-- is twice the cache, or a huge page if its size is unknown; none that nothing is done.
pub prepare-Truthful :
    (mode : ColdMode) (l3_kb base size a : ℕ)
    → base + size + 64 < 2 ^ 64
    → Serves mode (setup mode l3_kb size).effect
      × Truthful
          (setup mode l3_kb size).effect
          l3_kb
          base
          size
          a
          (prepare (setup mode l3_kb size) base size)
unfolding setup prepare
prepare-Truthful ColdMode.mode_none l3_kb base size a fits = (refl, (refl, refl))
prepare-Truthful ColdMode.mode_evict l3_kb base size a fits = (
  refl,
  (
    refl,
    evict_buffer_bytes l3_kb,
    evict_buffer_bytes-IsScratch l3_kb,
    count-stream_read (evict_buffer_bytes l3_kb) a,
  ),
)
prepare-Truthful ColdMode.mode_clflush l3_kb base size a fits =
    elim (Bool-cases (size == 0 || (ltb 0 (l3_bytes l3_kb) && ltb (l3_bytes l3_kb) size))) [
      | inl skip ↦ rw (skip) (inr refl, (refl, refl, ground arith))
      | inr flush ↦ rw (flush) (
        inl refl,
        (ground arith, ground arith, flush_lines-count base size a (ground arith) fits),
      )
    ]
