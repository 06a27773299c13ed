-- ===== src/Disk/TestFile/Fill.antt =====
-- The loop that fills the test file: what the file then holds, and that the loop ends.
use benchmark_platform.Prelude.{
  ℕ, ◌+◌, ◌-◌, ◌*◌, ◌/◌, ◌%◌, ◌^◌, ◌<◌, ◌≤◌, ◌≡◌, ◌⊎◌, inl, inr, min, refl, sym, ap, ap₂, subst,
  ◌∙◌, arith, List, [], ◌∷◌, ◌++◌, length, take, Bool-cases, ltb, append-nil, take_full, All,
}
use benchmark_platform.Prelude.Words.{u64}
use benchmark_platform.Disk.{Answer, Status, full_pwrite}
use benchmark_platform.Disk.Transfers.{Passes}
use benchmark_platform.Disk.Writes.{written, full_pwrite-total}
use benchmark_platform.Disk.TestFile.{Made, xorshift_words, fill_file}
use benchmark_platform.Disk.TestFile.Stream.{IsBytes, stream}
use benchmark_platform.Disk.TestFile.Blocks.{
  cut_block, length-cut_block, written_block, length-next, next_content,
}

Status-cases :
    (s : Status) → (s ≡ Status.io_done) ⊎ ((s ≡ Status.io_thrown) ⊎ (s ≡ Status.io_pending))
Status-cases Status.io_done = inl refl
Status-cases Status.io_thrown = inr (inl refl)
Status-cases Status.io_pending = inr (inr refl)

-- A result that, if it is a file, is this one, and counts these bytes.
abbrev pub Holds : (content : List ℕ) (total : ℕ) → Made → Type 0
Holds content total (Made.returned file count) = (file ≡ content) × (count ≡ total)
Holds content total Made.thrown = Unit
Holds content total Made.pending = Unit

abbrev pub Returns : Made → Type 0
Returns (Made.returned file count) = Unit
Returns Made.thrown = ⊥
Returns Made.pending = ⊥

pub Holds-Returns :
    (content : List ℕ) (total : ℕ) (m : Made)
    → Holds content total m
    → Returns m
    → m ≡ Made.returned content total
Holds-Returns content total (Made.returned file count) h r = ap₂ Made.returned h.0 h.1
Holds-Returns content total Made.thrown h r = absurd r
Holds-Returns content total Made.pending h r = absurd r

-- Answers to the writes of a block: each lets a byte through, and there is one for each byte.
abbrev pub Lets : (block : ℕ) → List Answer → Type 0
Lets block script = All Passes script × (block ≤ length script)

module _ (bytes_of : List ℕ → List ℕ) (law : IsBytes bytes_of) (block : ℕ)
    (whole : block ≡ 8 * (block / 8)) (some_block : 0 < block) where
  past_end :
      (file : List ℕ) (bytes off x : ℕ)
      → length file ≡ bytes
      → bytes ≤ off
      → file ≡ take off file ++ stream bytes_of law (bytes - off) x
  past_end file bytes off x size end =
      let none_left : bytes - off ≡ 0 = omega arith in
      sym (append-nil file)
      ∙ ap₂ ◌++◌ (sym (take_full off file (omega arith)))
          (ap (λ n. stream bytes_of law n x) (sym none_left))

  -- Whatever the kernel answers: if the loop returns, the file is as it was up to `off`, then has
  -- the stream.
  pub fill_file-Holds :
      (writes : List (List Answer)) (bytes off x count : ℕ) (file : List ℕ)
      → length file ≡ bytes
      → bytes + block < 2 ^ 64
      → count + (bytes - off) ≡ bytes
      → Holds
          (take off file ++ stream bytes_of law (bytes - off) x)
          bytes
          (fill_file bytes_of block writes bytes off x count file)
  unfolding fill_file
  fill_file-Holds [] bytes off x count file size small counted = elim (Bool-cases (ltb off bytes)) [
    | inl more ↦ rw (fill_file, more) tt
    | inr end ↦ rw (fill_file, end) (past_end file bytes off x size (ground arith), ground arith)
  ]
  fill_file-Holds (script ∷ writes) bytes off x count file size small counted =
      elim (Bool-cases (ltb off bytes)) [
        | inr end ↦
            rw (fill_file, end) (past_end file bytes off x size (ground arith), ground arith)
        | inl more ↦
            let chunk : List ℕ = cut_block bytes_of law block whole some_block (bytes - off) x in
            let wrote : Status × List ℕ = full_pwrite script chunk off file in
            let less : off < bytes = ground arith in
            elim (Status-cases wrote.0) [
              | inr (inl thrown) ↦ rw (fill_file, more, thrown) tt
              | inr (inr pending) ↦ rw (fill_file, more, pending) tt
              | inl done ↦
                  let is : wrote.1 ≡ written file off chunk (length chunk) =
                    written_block bytes_of law block whole some_block script file bytes off x size
                      less done in
                  let rest : Made =
                    fill_file bytes_of block writes bytes (u64 (off + block))
                      (xorshift_words (block / 8) x).1 (u64 (count + min block (bytes - off)))
                      wrote.1 in
                  rw (fill_file, more, done)
                    (subst (λ c. Holds c bytes rest)
                      (next_content bytes_of law block whole some_block file wrote.1 bytes off x
                        size less small is)
                      (fill_file-Holds writes bytes (u64 (off + block))
                        (xorshift_words (block / 8) x).1 (u64 (count + min block (bytes - off)))
                        wrote.1
                        (length-next bytes_of law block whole some_block file wrote.1 bytes off x
                          size less is)
                        small (omega arith)))
            ]
      ]

  pub fill_file-Returns :
      (writes : List (List Answer)) (bytes off x count : ℕ) (file : List ℕ)
      → bytes + block < 2 ^ 64
      → All (Lets block) writes
      → bytes ≤ off + length writes * block
      → Returns (fill_file bytes_of block writes bytes off x count file)
  unfolding fill_file
  fill_file-Returns [] bytes off x count file small lets enough = ground arith
  fill_file-Returns (script ∷ writes) bytes off x count file small lets enough =
      elim (Bool-cases (ltb off bytes)) [
        | inr end ↦ rw (fill_file, end) tt
        | inl more ↦
            let chunk : List ℕ = cut_block bytes_of law block whole some_block (bytes - off) x in
            let wrote : Status × List ℕ = full_pwrite script chunk off file in
            let long : length chunk ≡ min block (bytes - off) =
              length-cut_block bytes_of law block whole some_block (bytes - off) x in
            let done : wrote.0 ≡ Status.io_done =
              full_pwrite-total script file off chunk lets.0.0 (omega (arith, long, lets.0.1)) in
            let less : off < bytes = ground arith in
            let here : (off + block) % 2 ^ 64 ≡ off + block = omega arith in
            rw (fill_file, more, done)
              (fill_file-Returns writes bytes (u64 (off + block)) (xorshift_words (block / 8) x).1
                (u64 (count + min block (bytes - off))) wrote.1 small lets.1 (grind (arith, here)))
      ]
