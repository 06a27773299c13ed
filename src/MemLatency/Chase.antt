-- ===== src/MemLatency/Chase.antt =====
-- What `setup` leaves in the buffer, and what the chase of `run_batch` then loads.
use Prim.Native.Nat.{bit_xor}
use benchmark_platform.Prelude.{
  if◌then◌else◌, ◌==◌, max, ℕ, zero, suc, ◌+◌, ◌*◌, ◌/◌, ◌%◌, ◌^◌, ◌<◌, ◌≤◌, List, ◌∷◌, length,
  get_or, get_or-set, length-set, length-replicate, replicate, ◌≡◌, refl, ap, ◌∙◌, arith,
}
use benchmark_platform.Prelude.Words.{u64, golden}
use benchmark_platform.Prelude.Random.{Generator}
use benchmark_platform.MemLatency.{
  words_per_line, cache_line, default_working_set, sattolo_shuffle, identity_order, link_lines,
  buffer_bytes_for, MemLatencyWorkload, setup, chase, next_line,
}
use benchmark_platform.MemLatency.Cycle.{count, trace, iterate}
use benchmark_platform.MemLatency.Shuffle.{successor, sattolo_shuffle-cycle, successor-lt}

length-link_lines :
    (n : ℕ) (order words : List ℕ) → length (link_lines n order words) ≡ length words
unfolding link_lines
length-link_lines zero order words = refl
length-link_lines (suc n) order words =
    length-set (link_lines n order words) _ _ ∙ length-link_lines n order words

-- The first word of line `x` holds the word index of the line behind it.
get_or-link_lines :
    (n : ℕ) (order words : List ℕ) (x : ℕ)
    → n * 8 ≤ length words
    → x < n
    → get_or (link_lines n order words) (x * 8) 0 ≡ u64 (get_or order x 0 * 8)
unfolding link_lines
get_or-link_lines zero order words x fits h = elim h [ ]
get_or-link_lines (suc n) order words x fits h =
    let old = link_lines n order words in
    let here =
      get_or-set old (n * 8) (x * 8) (u64 (get_or order n 0 * 8)) 0
        (omega (arith, length-link_lines n order words)) in
    ground (arith, here, get_or-link_lines n order words x)

-- The size asked for, with the default in place of 0.
abbrev pub requested : ℕ → ℕ
requested ws = if ws == 0 then default_working_set else ws

-- A latency buffer is a whole number of lines, at least two, and no larger than the size asked
-- for, unless that is below two lines, and smaller by less than a line, for sizes below 2^64.
pub buffer_bytes_for_lem :
    (ws : ℕ)
    → ws < 2 ^ 64
    → (buffer_bytes_for ws % cache_line ≡ 0)
      × (2 ≤ buffer_bytes_for ws / cache_line)
      × (buffer_bytes_for ws < 2 ^ 64)
      × (buffer_bytes_for ws ≤ max (2 * cache_line) (requested ws))
      × (requested ws < buffer_bytes_for ws + cache_line)
unfolding buffer_bytes_for
buffer_bytes_for_lem ws h = ground arith

module _ (g : Generator) (seed thread_index ws : ℕ) (fits : ws < 2 ^ 64) where
  abbrev w : MemLatencyWorkload
  w = setup g seed thread_index ws

  abbrev n : ℕ
  n = buffer_bytes_for ws / cache_line

  abbrev key : ℕ
  key = bit_xor seed (u64 (golden * (thread_index + 1)))

  lines-setup : w.lines ≡ n
  unfolding setup
  lines-setup = refl

  length-words : length w.words ≡ n * 8
  unfolding setup
  length-words =
      length-link_lines n _ (replicate (buffer_bytes_for ws / 8) 0)
      ∙ length-replicate (buffer_bytes_for ws / 8) 0
      ∙ omega (arith, buffer_bytes_for_lem ws fits)

  word_at : (x : ℕ) → x < n → get_or w.words (x * 8) 0 ≡ successor g n key x * 8
  unfolding setup
  word_at x h =
      let order = sattolo_shuffle g (identity_order n) key in
      omega (
        arith,
        get_or-link_lines n order (replicate (buffer_bytes_for ws / 8) 0) x
            (omega (
              arith,
              length-replicate {A = ℕ} (buffer_bytes_for ws / 8) 0,
              buffer_bytes_for_lem ws fits,
            ))
            h,
        successor-lt g n key x h,
        buffer_bytes_for_lem ws fits,
      )

  next_line-setup : (x : ℕ) → x < n → next_line w x ≡ successor g n key x
  unfolding next_line
  next_line-setup x h = omega (arith, word_at x h)

  next_line-lt : (x : ℕ) → x < n → next_line w x < n
  next_line-lt x h = omega (arith, next_line-setup x h, successor-lt g n key x h)

  trace-lt : (k x : ℕ) → x < n → trace (next_line w) k x ≡ trace (successor g n key) k x
  trace-lt zero x h = refl
  trace-lt (suc k) x h =
      ap (λ l. x ∷ l)
        (trace-lt k (next_line w x) (next_line-lt x h)
          ∙ ap (trace (successor g n key) k) (next_line-setup x h))

  iterate-lt :
      (k x : ℕ)
      → x < n
      → (iterate (next_line w) k x ≡ iterate (successor g n key) k x)
        × (iterate (next_line w) k x < n)
  iterate-lt zero x h = (refl, h)
  iterate-lt (suc k) x h =
      let (e, lt) = iterate-lt k (next_line w x) (next_line-lt x h) in
      (e ∙ ap (iterate (successor g n key) k) (next_line-setup x h), lt)

  -- Loading through the words is walking the lines, a word index being eight times a line's.
  chase-iterate : (k x : ℕ) → x < n → chase k w.words (x * 8) ≡ iterate (next_line w) k x * 8
  unfolding chase
  chase-iterate zero x h = refl
  chase-iterate (suc k) x h =
      let load : get_or w.words (x * 8) 0 ≡ next_line w x * 8 =
        omega (arith, word_at x h, next_line-setup x h) in
      rw load (chase-iterate k (next_line w x) (next_line-lt x h))

  -- After the set-up of the latency workload, for a working set below 2^64 bytes and any
  -- generator, seed and worker, the buffer has at least two lines; from line 0 the links visit
  -- every line exactly once in one lap, and a chase of any number of loads follows the links,
  -- never leaves the buffer, and is back at its start after one lap.
  pub setup-chase :
      (v k : ℕ)
      → v < w.lines
      → (2 ≤ w.lines)
        × (length w.words ≡ w.lines * words_per_line)
        × (count v (trace (next_line w) w.lines 0) ≡ 1)
        × (chase k w.words w.idx ≡ iterate (next_line w) k 0 * words_per_line)
        × (chase k w.words w.idx < length w.words)
        × (chase w.lines w.words w.idx ≡ w.idx)
  unfolding setup
  setup-chase v k h =
      let (whole, two, small, _, _) = buffer_bytes_for_lem ws fits in
      let pos : 0 < n = omega (arith, two) in
      let walk : trace (next_line w) n 0 ≡ trace (successor g n key) n 0 = trace-lt n 0 pos in
      (
        two,
        length-words,
        ap (count v) walk ∙ (sattolo_shuffle-cycle g n key v h).0,
        chase-iterate k 0 pos,
        omega (arith, chase-iterate k 0 pos, iterate-lt k 0 pos, length-words),
        chase-iterate n 0 pos
            ∙ ap (λ (t : ℕ). t * 8)
                ((iterate-lt n 0 pos).0 ∙ (sattolo_shuffle-cycle g n key 0 pos).1),
      )
