-- ===== src/MemBw.antt =====
-- engine/include/bench/workloads/mem_bw.hpp and engine/src/workloads/mem_bw.cpp: the streaming read,
-- write and copy over one buffer of 64-bit words.
-- The buffer comes from `alloc_buffer` (engine/src/cache.cpp), whose `std::bad_alloc` ends `setup`
-- before this state exists. `setup` writes every word of it, so what it held before is not a part of
-- the model. `kHaveNonTemporal` is fixed when the engine is compiled, and an argument here. The test
-- before the allocation compares with the largest `size_t`, which no 64-bit total exceeds, and is
-- left out; the total itself wraps as in the source. `ClobberMemory` and `_mm_sfence` order
-- accesses of one thread and change no value. `describe` builds a JSON report.
pub mod Sum
pub mod Fill
pub mod Copy
pub mod Setup
pub mod Batch
pub mod Halves
use Prim.Native.Nat.{bit_or, bit_xor}
use benchmark_platform.Prelude.{
  ℕ, zero, suc, ◌+◌, ◌-◌, ◌*◌, ◌/◌, ◌%◌, ◌^◌, max, Bool, true, false, not, ◌&&◌, Option, none, some,
  List, [], ◌∷◌, ◌++◌, ◌==◌, leb, if◌then◌else◌, get_or, set, take, drop,
}
use benchmark_platform.Prelude.Words.{u64, ◌>>>◌, shl64, golden}
use benchmark_platform.Metric.{Metric}

-- The eight accumulators of `sum_words`.
pub record Lanes : Type 0 where
  pub s0 : ℕ
  pub s1 : ℕ
  pub s2 : ℕ
  pub s3 : ℕ
  pub s4 : ℕ
  pub s5 : ℕ
  pub s6 : ℕ
  pub s7 : ℕ

abbrev pub no_lanes : Lanes
no_lanes = record { s0 = 0; s1 = 0; s2 = 0; s3 = 0; s4 = 0; s5 = 0; s6 = 0; s7 = 0 }

-- The loop over eight words at a time, with the words that it leaves.
pub sum_lanes : List ℕ → Lanes → Lanes × List ℕ
sum_lanes (a ∷ b ∷ c ∷ d ∷ e ∷ f ∷ g ∷ h ∷ p) s = sum_lanes p (record {
  s0 = u64 (s.s0 + a);
  s1 = u64 (s.s1 + b);
  s2 = u64 (s.s2 + c);
  s3 = u64 (s.s3 + d);
  s4 = u64 (s.s4 + e);
  s5 = u64 (s.s5 + f);
  s6 = u64 (s.s6 + g);
  s7 = u64 (s.s7 + h);
})
sum_lanes p s = (s, p)

-- The loop over the words that are left.
pub sum_rest : List ℕ → ℕ → ℕ
sum_rest [] s0 = s0
sum_rest (x ∷ p) s0 = sum_rest p (u64 (s0 + x))

pub sum_words : List ℕ → ℕ
sum_words p =
    let (s, left) = sum_lanes p no_lanes in
    let s0 = sum_rest left s.s0 in
    u64 (u64 (u64 (s0 + s.s1) + u64 (s.s2 + s.s3)) + u64 (u64 (s.s4 + s.s5) + u64 (s.s6 + s.s7)))

-- The loop `p[i] = v` for `count` indices from `i`.
pub fill_from : (i count : ℕ) → List ℕ → ℕ → List ℕ
fill_from i zero p v = p
fill_from i (suc count) p v = fill_from (suc i) count (set p i v) v

pub fill_words : List ℕ → ℕ → ℕ → List ℕ
fill_words p words v = fill_from 0 words p v

-- `_mm256_stream_si256` of four equal words at `p + i`
abbrev pub stream_fill : List ℕ → ℕ → ℕ → List ℕ
stream_fill p i v = set (set (set (set p i v) (suc i) v) (suc (suc i)) v) (suc (suc (suc i))) v

-- The loop over four words at a time, and the index that it leaves.
pub fill_chunks : ℕ → List ℕ → (words i v : ℕ) → List ℕ × ℕ
fill_chunks zero p words i v = (p, i)
fill_chunks (suc fuel) p words i v = elim (leb (i + 4) words) [
  | true ↦ fill_chunks fuel (stream_fill p i v) words (i + 4) v
  | false ↦ (p, i)
]

pub fill_words_nt : List ℕ → ℕ → ℕ → List ℕ
fill_words_nt p words v = let (q, i) = fill_chunks words p words 0 v in fill_from i (words - i) q v

-- The loop `dst[i] = src[i]` for `count` indices from `i`, where `src` is the start of the buffer `p` and `dst`
-- is its word `words`
pub copy_from : (i count : ℕ) → List ℕ → ℕ → List ℕ
copy_from i zero p words = p
copy_from i (suc count) p words = copy_from (suc i) count (set p (words + i) (get_or p i 0)) words

-- The load of four words at `src + i`, and their store at `dst + i`.
abbrev pub stream_copy : List ℕ → ℕ → ℕ → List ℕ
stream_copy p words i =
    set
      (set (set (set p (words + i) (get_or p i 0)) (words + suc i) (get_or p (suc i) 0))
        (words + suc (suc i)) (get_or p (suc (suc i)) 0))
      (words + suc (suc (suc i))) (get_or p (suc (suc (suc i))) 0)

pub copy_chunks : ℕ → List ℕ → (words i : ℕ) → List ℕ × ℕ
copy_chunks zero p words i = (p, i)
copy_chunks (suc fuel) p words i = elim (leb (i + 4) words) [
  | true ↦ copy_chunks fuel (stream_copy p words i) words (i + 4)
  | false ↦ (p, i)
]

pub copy_words_nt : List ℕ → ℕ → List ℕ
copy_words_nt p words = let (q, i) = copy_chunks words p words 0 in copy_from i (words - i) q words

-- `std::memcpy(base + words, base, 8 * words)`
abbrev pub memcpy_words : List ℕ → ℕ → List ℕ
memcpy_words p words = take words p ++ (take words p ++ drop (words + words) p)

pub data Mode : Type 0 where
  read write copy : Mode

abbrev pub is_read : Mode → Bool
is_read read = true
is_read _ = false

abbrev pub default_working_set : ℕ
default_working_set = 64 * 2 ^ 20

abbrev pub min_batch_bytes : ℕ
min_batch_bytes = 4 * 2 ^ 20

abbrev pub cache_line : ℕ
cache_line = 64

unfoldable pub buffer_bytes_for : ℕ → ℕ
buffer_bytes_for working_set =
    let want = if working_set == 0 then default_working_set else working_set in
    max 1 (want / cache_line) * cache_line

unfoldable pub mode_of : Metric → Mode
mode_of Metric.mem_write_bw = write
mode_of Metric.mem_copy_bw = copy
mode_of _ = read

pub record MemBwWorkload : Type 0 where
  pub buf : List ℕ
  pub mode : Mode
  pub bytes : ℕ
  pub passes : ℕ
  pub batch_bytes : ℕ
  pub nt : Bool
  pub nt_requested : Bool
  pub fill : ℕ
  pub acc : ℕ

-- One step of the generator that fills the buffer.
abbrev pub xorshift : ℕ → ℕ
xorshift x = let a = bit_xor x (shl64 x 13) in let b = bit_xor a (a >>> 7) in bit_xor b (shl64 b 17)

-- The words that the loop of `setup` writes, and the last `x`.
pub random_words : ℕ → ℕ → List ℕ × ℕ
random_words zero x = ([], x)
random_words (suc n) x =
    let (words, last) = random_words n (xorshift x) in (xorshift x ∷ words, last)

-- `ctx.options->non_temporal`, where there are options
abbrev pub requested_nt : Option Bool → Bool
requested_nt none = false
requested_nt (some non_temporal) = non_temporal

abbrev pub total_bytes : Mode → ℕ → ℕ
total_bytes copy bytes = u64 (2 * bytes)
total_bytes _ bytes = bytes

-- On a workload in any earlier state, of which only `acc_` survives.
unfoldable pub setup :
    (have_nt : Bool)
    → MemBwWorkload
    → Metric
    → (seed thread_index working_set_bytes : ℕ) → Option Bool
    → MemBwWorkload
setup have_nt w metric seed thread_index working_set_bytes non_temporal =
    let mode = mode_of metric in
    let bytes = buffer_bytes_for working_set_bytes in
    let nt_requested = requested_nt non_temporal in
    let (words, x) =
      random_words (total_bytes mode bytes / 8)
        (bit_xor seed (u64 (golden * (thread_index + 1)))) in
    let passes = max 1 (min_batch_bytes / max bytes 1) in
    record {
      buf = words;
      mode = mode;
      bytes = bytes;
      passes = passes;
      batch_bytes = u64 (passes * bytes);
      nt = nt_requested && have_nt && not (is_read mode);
      nt_requested = nt_requested;
      fill = bit_or x 1;
      acc = w.acc;
    }

pub read_passes : ℕ → List ℕ → ℕ → ℕ
read_passes zero p acc = acc
read_passes (suc n) p acc = u64 (read_passes n p acc + sum_words p)

-- The passes number 0 up to `n` over the first `words` words of the buffer `p`.
pub write_passes : Bool → (n words fill : ℕ) → List ℕ → List ℕ
write_passes nt zero words fill p = p
write_passes nt (suc n) words fill p =
    let q = write_passes nt n words fill p in
    if nt then fill_words_nt q words (u64 (fill + n)) else fill_words q words (u64 (fill + n))

pub copy_passes : Bool → (n words : ℕ) → List ℕ → List ℕ
copy_passes nt zero words p = p
copy_passes nt (suc n) words p =
    let q = copy_passes nt n words p in if nt then copy_words_nt q words else memcpy_words q words

-- The workload after a batch of each mode.
abbrev pub batch_of : Mode → MemBwWorkload → ℕ → MemBwWorkload
batch_of read w words = record w { acc = read_passes w.passes (take words w.buf) w.acc }
batch_of write w words =
    let p = write_passes w.nt w.passes words w.fill w.buf in
    record w { buf = p; acc = u64 (w.acc + get_or p 0 0) }
batch_of copy w words =
    let p = copy_passes w.nt w.passes words w.buf in
    record w { buf = p; acc = u64 (w.acc + get_or p words 0) }

-- The workload and the bytes that the batch reports.
pub run_batch : MemBwWorkload → MemBwWorkload × ℕ
run_batch w = (batch_of w.mode w (w.bytes / 8), w.batch_bytes)
