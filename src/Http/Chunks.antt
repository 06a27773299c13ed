-- ===== src/Http/Chunks.antt =====
-- `decode_chunked` on a well-formed body, and on a size that wraps.
use benchmark_platform.Prelude.{
  ℕ, zero, suc, ◌+◌, ◌-◌, ◌^◌, ◌<◌, min, true, false, none, some, List, [], ◌∷◌, ◌++◌, ◌==◌, ltb,
  length, take, drop, ◌≡◌, ◌≢◌, refl, sym, ap, ◌∙◌, arith, All, append_assoc, append-nil,
  length-append, drop-drop,
}
use benchmark_platform.Prelude.Words.{u64}
use benchmark_platform.Http.{cr, lf, find_crlf, from_chars, decode_from, decode_chunked}

-- A chunk: the line with its size, which may go on with extensions, and its bytes.
pub record Chunk : Type 0 where
  pub size : List ℕ
  pub bytes : List ℕ

-- A text without a carriage return.
abbrev pub IsLine : List ℕ → Type 0
IsLine xs = All (λ x. x ≢ cr) xs

pub record IsChunk (c : Chunk) : Type 0 where
  pub line : IsLine c.size
  pub reads : from_chars c.size ≡ some (length c.bytes)
  pub some_byte : 0 < length c.bytes

-- A body: the chunks, the line of the last chunk, and the trailer.
unfoldable pub encode : List Chunk → (last trailer : List ℕ) → List ℕ
encode [] last trailer = last ++ cr ∷ lf ∷ trailer
encode (c ∷ cs) last trailer = c.size ++ cr ∷ lf ∷ (c.bytes ++ cr ∷ lf ∷ encode cs last trailer)

pub payload : List Chunk → List ℕ
payload [] = []
payload (c ∷ cs) = c.bytes ++ payload cs

find_crlf_line : (xs ys : List ℕ) → IsLine xs → find_crlf (xs ++ cr ∷ lf ∷ ys) ≡ some (length xs)
unfolding find_crlf
find_crlf_line [] ys h = refl
find_crlf_line (x ∷ xs) ys h =
    let no : (x == cr) ≡ false = ground (arith, h.0) in rw (no, find_crlf_line xs ys h.1) refl

drop-append : (xs ys : List ℕ) → drop (length xs) (xs ++ ys) ≡ ys
drop-append [] ys = refl
drop-append (x ∷ xs) ys = drop-append xs ys

take-append : (xs ys : List ℕ) → take (length xs) (xs ++ ys) ≡ xs
take-append [] ys = refl
take-append (x ∷ xs) ys = ap (λ l. x ∷ l) (take-append xs ys)

-- One round of the loop at a line that gives a size.
decode_from_line :
    (fuel : ℕ) (pre size rest out : List ℕ) (len : ℕ)
    → IsLine size
    → from_chars size ≡ some len
    → 0 < len
    → decode_from (suc fuel) (pre ++ (size ++ cr ∷ lf ∷ rest)) (length pre) out
      ≡ decode_from fuel
          (pre ++ (size ++ cr ∷ lf ∷ rest))
          (u64 (length pre + length size + 2 + u64 (len + 2)))
          (out ++ take (min len (length rest)) rest)
unfolding decode_from
decode_from_line fuel pre size rest out len line reads pos =
    let tail = size ++ cr ∷ lf ∷ rest in
    let b = pre ++ tail in
    let n = length pre + length size in
    let at : drop (length pre) b ≡ tail = drop-append pre tail in
    let text : take (length size) (drop (length pre) b) ≡ size =
      ap (take (length size)) at ∙ take-append size (cr ∷ lf ∷ rest) in
    let behind : drop (n + 2) b ≡ rest =
      sym (drop-drop 2 n b)
      ∙ ap (drop 2) (
          sym (drop-drop (length size) (length pre) b)
          ∙ ap (drop (length size)) at
          ∙ drop-append size (cr ∷ lf ∷ rest)) in
    let total : length b ≡ n + 2 + length rest =
      omega (arith, length-append {0} pre tail, length-append {0} size (cr ∷ lf ∷ rest)) in
    let inside : ltb (length pre) (length b) ≡ true = ground (arith, total) in
    let left : length b - (n + 2) ≡ length rest = omega (arith, total) in
    let some_len : (len == 0) ≡ false = ground arith in
    rw (inside, decode_from, at, find_crlf_line size rest line, text, reads, some_len, behind, left)
      refl

-- The last round, at a line that gives the size 0.
decode_from_last :
    (fuel : ℕ) (pre size rest out : List ℕ)
    → IsLine size
    → from_chars size ≡ some 0
    → decode_from (suc fuel) (pre ++ (size ++ cr ∷ lf ∷ rest)) (length pre) out ≡ some out
unfolding decode_from
decode_from_last fuel pre size rest out line reads =
    let tail = size ++ cr ∷ lf ∷ rest in
    let b = pre ++ tail in
    let text : take (length size) (drop (length pre) b) ≡ size =
      ap (take (length size)) (drop-append pre tail) ∙ take-append size (cr ∷ lf ∷ rest) in
    let total : length b ≡ length pre + length size + 2 + length rest =
      omega (arith, length-append {0} pre tail, length-append {0} size (cr ∷ lf ∷ rest)) in
    let inside : ltb (length pre) (length b) ≡ true = ground (arith, total) in
    rw (inside, decode_from, drop-append pre tail, find_crlf_line size rest line, text, reads) refl

-- The loop from the first of the chunks that a well-formed body still holds.
decode_from_chunks :
    (fuel : ℕ) (pre : List ℕ) (cs : List Chunk) (last trailer out : List ℕ)
    → length cs < fuel
    → All IsChunk cs
    → IsLine last
    → from_chars last ≡ some 0
    → length (pre ++ encode cs last trailer) < 2 ^ 64
    → decode_from fuel (pre ++ encode cs last trailer) (length pre) out ≡ some (out ++ payload cs)
unfolding encode payload
decode_from_chunks zero pre cs last trailer out enough ok line zero_size fits = absurd (omega arith)
decode_from_chunks (suc fuel) pre [] last trailer out enough ok line zero_size fits =
    rw (append-nil out) (decode_from_last fuel pre last trailer out line zero_size)
decode_from_chunks (suc fuel) pre (c ∷ cs) last trailer out enough ok line zero_size fits =
    let more = encode cs last trailer in
    let rest = c.bytes ++ cr ∷ lf ∷ more in
    let pre' = pre ++ (c.size ++ cr ∷ lf ∷ (c.bytes ++ cr ∷ lf ∷ [])) in
    let k = length c.bytes in
    let same : pre ++ (c.size ++ cr ∷ lf ∷ rest) ≡ pre' ++ more =
      rw
        (
          append_assoc pre (c.size ++ cr ∷ lf ∷ (c.bytes ++ cr ∷ lf ∷ [])) more,
          append_assoc c.size (cr ∷ lf ∷ (c.bytes ++ cr ∷ lf ∷ [])) more,
          append_assoc c.bytes (cr ∷ lf ∷ []) more,
        )
        refl in
    let len' : length pre' ≡ length pre + length c.size + 2 + (k + 2) = omega (
      arith,
      length-append {0} pre (c.size ++ cr ∷ lf ∷ (c.bytes ++ cr ∷ lf ∷ [])),
      length-append {0} c.size (cr ∷ lf ∷ (c.bytes ++ cr ∷ lf ∷ [])),
      length-append {0} c.bytes (cr ∷ lf ∷ []),
    ) in
    let total : length (pre ++ (c.size ++ cr ∷ lf ∷ rest)) ≡ length pre' + length more =
      ap length same ∙ length-append {0} pre' more in
    let to : u64 (length pre + length c.size + 2 + u64 (k + 2)) ≡ length pre' =
      omega (arith, len', total, fits) in
    let got : take (min k (length rest)) rest ≡ c.bytes =
      let short : min k (length rest) ≡ k =
        omega (arith, length-append {0} c.bytes (cr ∷ lf ∷ more)) in
      rw short (take-append c.bytes (cr ∷ lf ∷ more)) in
    decode_from_line fuel pre c.size rest out k ok.0.line ok.0.reads ok.0.some_byte
    ∙ rw (to, got, same)
        (decode_from_chunks fuel pre' cs last trailer (out ++ c.bytes) (omega arith) ok.1 line
            zero_size (rw (← same) fits)
          ∙ ap some (append_assoc out c.bytes (payload cs)))

-- The decoder gives the bytes of the chunks in order, for a body of fewer than 2^64 bytes whose
-- chunks are well-formed and end with a chunk of size 0, whatever the trailer, and the loop then
-- takes at most one round for each chunk and one more.
pub decode_chunked-encode :
    (fuel : ℕ) (cs : List Chunk) (last trailer : List ℕ)
    → length cs < fuel
    → All IsChunk cs
    → IsLine last
    → from_chars last ≡ some 0
    → length (encode cs last trailer) < 2 ^ 64
    → decode_chunked fuel (encode cs last trailer) ≡ some (payload cs)
unfolding decode_chunked
decode_chunked-encode fuel cs last trailer = decode_from_chunks fuel [] cs last trailer []

-- If the first line of a body is a size that lacks the length of the line and 4 of 2^64, no
-- number of rounds ends the loop of the decoder.
pub decode_from_wraps :
    (fuel : ℕ) (size rest out : List ℕ) (len : ℕ)
    → IsLine size
    → from_chars size ≡ some len
    → 0 < len
    → len + length size + 4 ≡ 2 ^ 64
    → decode_from fuel (size ++ cr ∷ lf ∷ rest) 0 out ≡ none
unfolding decode_from
decode_from_wraps zero size rest out len line reads pos e = refl
decode_from_wraps (suc fuel) size rest out len line reads pos e =
    let back : u64 (length {A = ℕ} [] + length size + 2 + u64 (len + 2)) ≡ 0 = omega arith in
    decode_from_line fuel [] size rest out len line reads pos
    ∙ rw back (decode_from_wraps fuel size rest _ len line reads pos e)
