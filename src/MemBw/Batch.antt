-- ===== src/MemBw/Batch.antt =====
-- What a batch of each mode does to the workload.
use benchmark_platform.Prelude.{
  ℕ, zero, suc, ◌+◌, ◌-◌, ◌*◌, ◌/◌, ◌<◌, ◌≤◌, Bool, true, false, List, [], ◌∷◌, length, get_or,
  take, if◌then◌else◌, ◌≡◌, refl, ◌∙◌, ap, sym, arith, length-replicate, get_or-replicate_lt,
  list_ext, replicate,
}
use benchmark_platform.Prelude.Words.{u64}
use benchmark_platform.MemBw.{
  fill_words, fill_words_nt, read, write, MemBwWorkload, read_passes, write_passes, run_batch,
}
use benchmark_platform.MemBw.Sum.{sum, sum_words_lem}
use benchmark_platform.MemBw.Fill.{fill_words_nt_lem, get_or-fill_from, length-fill_from}
use benchmark_platform.MemBw.Setup.{halves, IsWellFormed}

read_passes_lem : (n : ℕ) (p : List ℕ) (acc : ℕ) → u64 (read_passes n p acc) ≡ u64 (acc + n * sum p)
unfolding read_passes
read_passes_lem zero p acc = ap u64 (omega arith)
read_passes_lem (suc n) p acc =
    let more : suc n * sum p ≡ n * sum p + sum p = grind arith in
    omega (arith, read_passes_lem n p acc, sum_words_lem p, more)

read_passes_pos :
    (n : ℕ) (p : List ℕ) (acc : ℕ) → 0 < n → read_passes n p acc ≡ u64 (acc + n * sum p)
unfolding read_passes
read_passes_pos zero p acc h = absurd (omega arith)
read_passes_pos (suc n) p acc h = omega (arith, read_passes_lem (suc n) p acc)

take_all : (n : ℕ) (p : List ℕ) → length p ≡ n → take n p ≡ p
take_all zero [] h = refl
take_all zero (x ∷ p) h = absurd (omega arith)
take_all (suc n) [] h = absurd (omega arith)
take_all (suc n) (x ∷ p) h = ap (λ q. x ∷ q) (take_all n p (omega arith))

-- For a well-formed workload that reads, a batch adds passes times the sum of the whole buffer to
-- the checksum, modulo 2^64, and changes nothing else; it reports passes times the bytes of the
-- buffer.
pub run_batch-read :
    (w : MemBwWorkload)
    → IsWellFormed w
    → w.mode ≡ read
    → ((run_batch w).0 ≡ record w { acc = u64 (w.acc + w.passes * sum w.buf) })
      × ((run_batch w).1 ≡ w.passes * w.bytes)
unfolding run_batch
run_batch-read w ok e =
    let one : halves w.mode ≡ 1 = rw e refl in
    let all : take (w.bytes / 8) w.buf ≡ w.buf =
      take_all (w.bytes / 8) w.buf (ok.size ∙ ap (λ k. k * (w.bytes / 8)) one ∙ omega arith) in
    (rw (e, all, read_passes_pos w.passes w.buf w.acc ok.some_pass) refl, ok.batch)

pass_fill :
    (nt : Bool) (q : List ℕ) (words v : ℕ)
    → (if nt then fill_words_nt q words v else fill_words q words v) ≡ fill_words q words v
pass_fill true q words v = fill_words_nt_lem q words v
pass_fill false q words v = refl

length-write_passes :
    (nt : Bool) (n words fill : ℕ) (p : List ℕ) → length (write_passes nt n words fill p) ≡ length p
unfolding write_passes fill_words
length-write_passes nt zero words fill p = refl
length-write_passes nt (suc n) words fill p =
    let q = write_passes nt n words fill p in
    rw (pass_fill nt q words (u64 (fill + n)))
      (length-fill_from 0 words q (u64 (fill + n)) ∙ length-write_passes nt n words fill p)

get_or-write_passes :
    (nt : Bool) (n words fill : ℕ) (p : List ℕ) (j : ℕ)
    → words ≤ length p
    → j < words
    → get_or (write_passes nt (suc n) words fill p) j 0 ≡ u64 (fill + n)
unfolding write_passes fill_words
get_or-write_passes nt n words fill p j h lt =
    let q = write_passes nt n words fill p in
    let long : 0 + words ≤ length q = omega (arith, length-write_passes nt n words fill p) in
    rw (pass_fill nt q words (u64 (fill + n)))
      (ground (arith, get_or-fill_from 0 words q (u64 (fill + n)) j long))

write_passes_lem :
    (nt : Bool) (n words fill : ℕ) (p : List ℕ)
    → length p ≡ words
    → 0 < n
    → write_passes nt n words fill p ≡ replicate words (u64 (fill + (n - 1)))
write_passes_lem nt zero words fill p h pos = absurd (omega arith)
write_passes_lem nt (suc n) words fill p h pos =
    let before : suc n - 1 ≡ n = omega arith in
    let v = u64 (fill + n) in
    let len : length (write_passes nt (suc n) words fill p) ≡ words =
      length-write_passes nt (suc n) words fill p ∙ h in
    rw before (
      list_ext (write_passes nt (suc n) words fill p) (replicate words v) 0
        (len ∙ sym (length-replicate {A = ℕ} words v))
        (λ j lt.
          get_or-write_passes nt n words fill p j (omega (arith, h)) (omega (arith, len))
          ∙ sym (get_or-replicate_lt words v j 0 (omega (arith, len)))))

-- For a well-formed workload that writes, with streaming stores or without, a batch leaves the
-- value of the last pass in every word of the buffer and adds it to the checksum, modulo 2^64; it
-- reports passes times the bytes of the buffer.
pub run_batch-write :
    (w : MemBwWorkload)
    → IsWellFormed w
    → w.mode ≡ write
    → ((run_batch w).0 ≡ record w {
      buf = replicate (w.bytes / 8) (u64 (w.fill + (w.passes - 1)));
      acc = u64 (w.acc + u64 (w.fill + (w.passes - 1)));
    })
      × ((run_batch w).1 ≡ w.passes * w.bytes)
unfolding run_batch
run_batch-write w ok e =
    let words = w.bytes / 8 in
    let v = u64 (w.fill + (w.passes - 1)) in
    let one : halves w.mode ≡ 1 = rw e refl in
    let size : length w.buf ≡ words = ok.size ∙ ap (λ k. k * words) one ∙ omega arith in
    let filled : write_passes w.nt w.passes words w.fill w.buf ≡ replicate words v =
      write_passes_lem w.nt w.passes words w.fill w.buf size ok.some_pass in
    let first : get_or (replicate words v) 0 0 ≡ v =
      get_or-replicate_lt words v 0 0 (omega (arith, ok.some_line)) in
    (rw (e, filled, first) refl, ok.batch)
