-- ===== src/Sha256/Spec.antt =====
-- The digest as FIPS 180-4 describes it: the text, padded to whole blocks, compressed block by
-- block.
use benchmark_platform.Prelude.{
  ℕ, zero, suc, ◌+◌, ◌-◌, ◌*◌, ◌%◌, List, [], ◌∷◌, ◌++◌, length, take, drop, replicate,
}
use benchmark_platform.Prelude.Words.{u8, ◌>>>◌}
use benchmark_platform.Sha256.{Words8, compress}

-- The low `n` bytes of a number, the highest first.
unfoldable pub big_endian : ℕ → ℕ → List ℕ
big_endian zero bits = []
big_endian (suc n) bits = u8 (bits >>> (8 * n)) ∷ big_endian n bits

-- A one bit, the fewest zero bits that fill the last block, and the length in bits.
unfoldable pub padding : ℕ → List ℕ
padding n = 0x80 ∷ (replicate ((64 - (n + 9) % 64) % 64) 0 ++ big_endian 8 (n * 8))

abbrev pub padded : List ℕ → List ℕ
padded text = text ++ padding (length text)

-- `n` blocks of a text.
unfoldable pub compress_blocks : ℕ → Words8 → List ℕ → Words8
compress_blocks zero v m = v
compress_blocks (suc n) v m = compress_blocks n (compress v (take 64 m)) (drop 64 m)
