-- ===== src/Disk/TestFile/Blocks.antt =====
-- One block of the test file: what is written, and the file after it.
use benchmark_platform.Prelude.{
  ℕ, ◌+◌, ◌-◌, ◌*◌, ◌/◌, ◌%◌, ◌^◌, ◌<◌, ◌≤◌, ◌≡◌, ◌⊎◌, inl, inr, min, refl, sym, ap, ap₂, ◌∙◌,
  arith, List, [], ◌∷◌, ◌++◌, length, take, drop, append_assoc, append-nil, length-append,
  length-drop, take_full, take-append_eq,
}
use benchmark_platform.Prelude.Words.{u64}
use benchmark_platform.Disk.{Answer, Status, full_pwrite}
use benchmark_platform.Disk.Writes.{
  written, Writes, full_pwrite-Writes, length-written, length-take_le,
}
use benchmark_platform.Disk.TestFile.{xorshift_words}
use benchmark_platform.Disk.TestFile.Stream.{
  IsBytes, length-xorshift_words, stream, stream_block, min_cases,
}

length-zero : (xs : List ℕ) → length xs ≡ 0 → xs ≡ []
length-zero [] e = refl
length-zero (x ∷ xs) e = absurd (omega arith)

-- After a whole buffer is written at `off`, what is before the next block.
take-written :
    (file chunk : List ℕ) (off next : ℕ)
    → off + length chunk ≤ length file
    → (next ≡ off + length chunk) ⊎ (length file ≡ off + length chunk)
    → off + length chunk ≤ next
    → take next (written file off chunk (length chunk)) ≡ take off file ++ chunk
take-written file chunk off next fits at le =
    let head : List ℕ = take off file ++ chunk in
    let rest : List ℕ = drop (off + length chunk) file in
    let size : length head ≡ off + length chunk =
      omega (arith, length-append (take off file) chunk, length-take_le off file (omega arith)) in
    let whole : written file off chunk (length chunk) ≡ head ++ rest =
      ap (λ l. take off file ++ (l ++ rest)) (take_full (length chunk) chunk (omega arith))
      ∙ sym (append_assoc (take off file) chunk rest) in
    ap (take next) whole ∙ elim at [
      | inl e ↦ take-append_eq next head rest (size ∙ sym e)
      | inr e ↦
          let none_left : rest ≡ [] =
            length-zero rest (omega (arith, length-drop (off + length chunk) file)) in
          ap (λ l. take next (head ++ l)) none_left
          ∙ ap (take next) (append-nil head)
          ∙ take_full next head (omega arith)
    ]

-- A write that returns has written the whole buffer.
Writes-done :
    (file : List ℕ) (off : ℕ) (buf : List ℕ) (wrote : Status × List ℕ)
    → Writes file off buf wrote
    → wrote.0 ≡ Status.io_done
    → wrote.1 ≡ written file off buf (length buf)
Writes-done file off buf (Status.io_done, after) (done, all, e) same =
    e ∙ ap (written file off buf) all
Writes-done file off buf (Status.io_thrown, after) w same = absurd (cc)
Writes-done file off buf (Status.io_pending, after) w same = absurd (cc)

module _ (bytes_of : List ℕ → List ℕ) (law : IsBytes bytes_of) (block : ℕ)
    (whole : block ≡ 8 * (block / 8)) (some_block : 0 < block) where
  -- The bytes that are written for `n` that are left.
  abbrev pub cut_block : (n x : ℕ) → List ℕ
  cut_block n x = take (min block n) (bytes_of (xorshift_words (block / 8) x).0)

  pub length-cut_block : (n x : ℕ) → length (cut_block n x) ≡ min block n
  length-cut_block n x =
      let words : List ℕ = (xorshift_words (block / 8) x).0 in
      length-take_le (min block n) (bytes_of words)
        (omega (arith, law.eight words, length-xorshift_words (block / 8) x, whole))

  cut_block-stream :
      (n x : ℕ)
      → cut_block n x ++ stream bytes_of law (n - min block n) (xorshift_words (block / 8) x).1
        ≡ stream bytes_of law n x
  cut_block-stream n x =
      ap
        (λ b.
          take (min b n) (bytes_of (xorshift_words (block / 8) x).0)
          ++ stream bytes_of law (n - min b n) (xorshift_words (block / 8) x).1)
        whole
      ∙ stream_block bytes_of law (block / 8) n x

  -- The file after the block at `off` is written, up to the next one and with the rest of the
  -- stream: it is what it was up to `off`, then the stream.
  block_content :
      (file : List ℕ) (bytes off x : ℕ)
      → length file ≡ bytes
      → off < bytes
      → take
            (off + block)
            (written file off (cut_block (bytes - off) x) (length (cut_block (bytes - off) x)))
          ++ stream bytes_of law (bytes - (off + block)) (xorshift_words (block / 8) x).1
        ≡ take off file ++ stream bytes_of law (bytes - off) x
  block_content file bytes off x same more =
      let n : ℕ = bytes - off in
      let chunk : List ℕ = cut_block n x in
      let size : length chunk ≡ min block n = length-cut_block n x in
      let at : (off + block ≡ off + length chunk) ⊎ (length file ≡ off + length chunk) =
        elim (min_cases block n) [
          | inl e ↦ inl (omega (arith, same, size, e))
          | inr z ↦ inr (omega (arith, same, size, z))
        ] in
      let left : bytes - (off + block) ≡ n - min block n = omega arith in
      ap₂ (λ l k. l ++ stream bytes_of law k (xorshift_words (block / 8) x).1)
        (take-written file chunk off (off + block) (omega (arith, same, size)) at
          (omega (arith, same, size)))
        left
      ∙ append_assoc (take off file) chunk _
      ∙ ap (λ l. take off file ++ l) (cut_block-stream n x)

  pub written_block :
      (script : List Answer) (file : List ℕ) (bytes off x : ℕ)
      → length file ≡ bytes
      → off < bytes
      → (full_pwrite script (cut_block (bytes - off) x) off file).0 ≡ Status.io_done
      → (full_pwrite script (cut_block (bytes - off) x) off file).1
        ≡ written file off (cut_block (bytes - off) x) (length (cut_block (bytes - off) x))
  written_block script file bytes off x size less done =
      let chunk : List ℕ = cut_block (bytes - off) x in
      Writes-done file off chunk (full_pwrite script chunk off file)
        (full_pwrite-Writes script file off chunk
          (omega (arith, size, length-cut_block (bytes - off) x)))
        done

  pub length-next :
      (file after : List ℕ) (bytes off x : ℕ)
      → length file ≡ bytes
      → off < bytes
      → after ≡ written file off (cut_block (bytes - off) x) (length (cut_block (bytes - off) x))
      → length after ≡ bytes
  length-next file after bytes off x size less is =
      let chunk : List ℕ = cut_block (bytes - off) x in
      ap length is
      ∙ length-written file off chunk (length chunk)
          (omega (arith, size, length-cut_block (bytes - off) x)) (omega arith)
      ∙ size

  pub next_content :
      (file after : List ℕ) (bytes off x : ℕ)
      → length file ≡ bytes
      → off < bytes
      → bytes + block < 2 ^ 64
      → after ≡ written file off (cut_block (bytes - off) x) (length (cut_block (bytes - off) x))
      → take (u64 (off + block)) after
          ++ stream bytes_of law (bytes - u64 (off + block)) (xorshift_words (block / 8) x).1
        ≡ take off file ++ stream bytes_of law (bytes - off) x
  next_content file after bytes off x size less small is =
      let here : (off + block) % 2 ^ 64 ≡ off + block = omega arith in
      ap₂ (λ k l. take k l ++ stream bytes_of law (bytes - k) (xorshift_words (block / 8) x).1) here
        is
      ∙ block_content file bytes off x size less
