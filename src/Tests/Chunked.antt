-- ===== src/Tests/Chunked.antt =====
-- `decode_chunked`: the theorems at concrete inputs.
use benchmark_platform.Prelude.{
  ℕ, ◌^◌, ◌-◌, ◌<◌, ◌≡◌, refl, arith, List, [], ◌∷◌, ◌++◌, some, none, length, All,
}
use benchmark_platform.Http.{cr, lf, from_chars, digits_value, decode_from, decode_chunked}
use benchmark_platform.Http.Chunks.{
  Chunk, IsChunk, IsLine, encode, payload, decode_chunked-encode, decode_from_wraps,
}

-- "b;x" with eleven bytes, then "2" with "ok"
abbrev chunks : List Chunk
chunks =
    record {
      size = 98 ∷ 59 ∷ 120 ∷ [];
      bytes = 104 ∷ 101 ∷ 108 ∷ 108 ∷ 111 ∷ 13 ∷ 10 ∷ 116 ∷ 104 ∷ 101 ∷ 114 ∷ [];
    }
    ∷ record { size = 50 ∷ []; bytes = 111 ∷ 107 ∷ [] }
    ∷ []

chunks-IsChunk : All IsChunk chunks
unfolding from_chars digits_value
chunks-IsChunk = (
  record { line = ground arith; reads = refl; some_byte = omega arith },
  (record { line = ground arith; reads = refl; some_byte = omega arith }, tt),
)

zero_size : from_chars (48 ∷ []) ≡ some 0
unfolding from_chars digits_value
zero_size = refl

short : length (encode chunks (48 ∷ []) (cr ∷ lf ∷ [])) < 2 ^ 64
unfolding encode
short = omega arith

decode_chunked-encode_example :
    decode_chunked 3 (encode chunks (48 ∷ []) (cr ∷ lf ∷ [])) ≡ some (payload chunks)
decode_chunked-encode_example =
    decode_chunked-encode 3 chunks (48 ∷ []) (cr ∷ lf ∷ []) (omega arith) chunks-IsChunk
      (omega arith, tt) zero_size short

-- "FFFFFFFFFFFFFFEC"
abbrev wrapping : List ℕ
wrapping = 70 ∷ 70 ∷ 70 ∷ 70 ∷ 70 ∷ 70 ∷ 70 ∷ 70 ∷ 70 ∷ 70 ∷ 70 ∷ 70 ∷ 70 ∷ 70 ∷ 69 ∷ 67 ∷ []

wrapping-IsLine : IsLine wrapping
wrapping-IsLine = ground arith

wrapping_size : from_chars wrapping ≡ some (2 ^ 64 - 20)
unfolding from_chars digits_value
wrapping_size = refl

decode_from_wraps_example : decode_from 1000 (wrapping ++ cr ∷ lf ∷ 1 ∷ 2 ∷ []) 0 [] ≡ none
decode_from_wraps_example =
    decode_from_wraps 1000 wrapping (1 ∷ 2 ∷ []) [] (2 ^ 64 - 20) wrapping-IsLine wrapping_size
      (omega arith) (omega arith)
