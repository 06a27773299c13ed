-- ===== src/MemBw/Halves.antt =====
-- The batches of copies, and the invariant across batches.
use benchmark_platform.Prelude.{
  ℕ, zero, suc, ◌+◌, ◌-◌, ◌*◌, ◌/◌, ◌≤◌, Bool, true, false, List, [], ◌∷◌, ◌++◌, length, get_or,
  take, drop, if◌then◌else◌, ◌≡◌, refl, ◌∙◌, ap, sym, arith, length-take, length-append,
  length-replicate, get_or-append_le, list_ext, append-nil, get_or-take,
}
use benchmark_platform.Prelude.Words.{u64}
use benchmark_platform.MemBw.{
  copy_words_nt, memcpy_words, Mode, read, write, copy, MemBwWorkload, copy_passes, run_batch,
}
use benchmark_platform.MemBw.Copy.{copy_words_nt_lem, length-memcpy_words, get_or-memcpy_words}
use benchmark_platform.MemBw.Setup.{halves, IsWellFormed}
use benchmark_platform.MemBw.Batch.{run_batch-read, run_batch-write}

pass_copy :
    (nt : Bool) (q : List ℕ) (words : ℕ)
    → words + words ≤ length q
    → (if nt then copy_words_nt q words else memcpy_words q words) ≡ memcpy_words q words
pass_copy true q words h = copy_words_nt_lem q words h
pass_copy false q words h = refl

memcpy_words_twice :
    (p : List ℕ) (words : ℕ)
    → words + words ≤ length p
    → memcpy_words (memcpy_words p words) words ≡ memcpy_words p words
memcpy_words_twice p words h =
    let len = length-memcpy_words p words h in
    let long : words + words ≤ length (memcpy_words p words) = omega (arith, len) in
    let len2 = length-memcpy_words (memcpy_words p words) words long in
    list_ext (memcpy_words (memcpy_words p words) words) (memcpy_words p words) 0 len2 (λ j lt.
      ground (
        arith,
        get_or-memcpy_words (memcpy_words p words) words j long (omega (arith, len2)),
        get_or-memcpy_words p words j h (omega (arith, len2, len)),
        get_or-memcpy_words p words (j - words) h (omega (arith, len2, len)),
      ))

copy_passes_lem :
    (nt : Bool) (n words : ℕ) (p : List ℕ)
    → words + words ≤ length p
    → copy_passes nt (suc n) words p ≡ memcpy_words p words
unfolding copy_passes
copy_passes_lem nt zero words p h = pass_copy nt p words h
copy_passes_lem nt (suc n) words p h = rw (copy_passes_lem nt n words p h) (
    pass_copy nt (memcpy_words p words) words (omega (arith, length-memcpy_words p words h))
    ∙ memcpy_words_twice p words h)

drop_all : (n : ℕ) (p : List ℕ) → length p ≤ n → drop n p ≡ []
drop_all zero [] h = refl
drop_all zero (x ∷ p) h = absurd (omega arith)
drop_all (suc n) [] h = refl
drop_all (suc n) (x ∷ p) h = drop_all n p (omega arith)

-- For a well-formed workload that copies, with streaming stores or without, a batch leaves the
-- first half of the buffer, makes the second half equal to it, and adds its first word to the
-- checksum, modulo 2^64; it reports passes times the bytes of one half.
pub run_batch-copy :
    (w : MemBwWorkload)
    → IsWellFormed w
    → w.mode ≡ copy
    → ((run_batch w).0 ≡ record w {
      buf = take (w.bytes / 8) w.buf ++ take (w.bytes / 8) w.buf;
      acc = u64 (w.acc + get_or w.buf 0 0);
    })
      × ((run_batch w).1 ≡ w.passes * w.bytes)
unfolding run_batch
run_batch-copy w ok e =
    let words = w.bytes / 8 in
    let half = take words w.buf in
    let two : halves w.mode ≡ 2 = rw e refl in
    let size : length w.buf ≡ words + words = ok.size ∙ ap (λ k. k * words) two ∙ omega arith in
    let long : words + words ≤ length w.buf = omega (arith, size) in
    let before : suc (w.passes - 1) ≡ w.passes = omega (arith, ok.some_pass) in
    let copied : copy_passes w.nt w.passes words w.buf ≡ memcpy_words w.buf words =
      ap (λ n. copy_passes w.nt n words w.buf) (sym before)
      ∙ copy_passes_lem w.nt (w.passes - 1) words w.buf long in
    let none : drop (words + words) w.buf ≡ [] =
      drop_all (words + words) w.buf (omega (arith, size)) in
    let first : get_or (half ++ half) words 0 ≡ get_or w.buf 0 0 = ground (
      arith,
      length-take words w.buf,
      ok.some_line,
      get_or-append_le half half words 0,
      get_or-take words w.buf 0 0,
    ) in
    (rw (e, copied, none, append-nil half, first) refl, ok.batch)

module _ (w : MemBwWorkload) (ok : IsWellFormed w) where
  batch-IsWellFormed : (m : Mode) → w.mode ≡ m → IsWellFormed (run_batch w).0
  batch-IsWellFormed read e = rw ((run_batch-read w ok e).0) (record {
    whole_lines = ok.whole_lines;
    some_line = ok.some_line;
    size = ok.size;
    some_pass = ok.some_pass;
    batch = ok.batch;
  })
  batch-IsWellFormed write e = rw ((run_batch-write w ok e).0) (record {
    whole_lines = ok.whole_lines;
    some_line = ok.some_line;
    size = rw e (length-replicate {A = ℕ} _ _ ∙ omega arith);
    some_pass = ok.some_pass;
    batch = ok.batch;
  })
  batch-IsWellFormed copy e =
      let words = w.bytes / 8 in
      let two : halves w.mode ≡ 2 = rw e refl in
      let size : length w.buf ≡ words + words = ok.size ∙ ap (λ k. k * words) two ∙ omega arith in
      rw ((run_batch-copy w ok e).0) (record {
        whole_lines = ok.whole_lines;
        some_line = ok.some_line;
        size = rw e (
            omega (
              arith,
              size,
              length-append {0} (take words w.buf) (take words w.buf),
              length-take words w.buf,
            ));
        some_pass = ok.some_pass;
        batch = ok.batch;
      })

  -- Every batch keeps a well-formed workload well-formed.
  pub run_batch-IsWellFormed : IsWellFormed (run_batch w).0
  run_batch-IsWellFormed = batch-IsWellFormed w.mode refl
