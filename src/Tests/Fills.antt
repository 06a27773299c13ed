-- ===== src/Tests/Fills.antt =====
-- The disk workloads' test file at a concrete size, with blocks of eight bytes.
use Prim.Native.Nat.{bit_or}
use benchmark_platform.Prelude.{
  ℕ, ◌*◌, ◌/◌, ◌%◌, ◌^◌, ◌≡◌, refl, ap, arith, true, false, List, [], ◌∷◌, ◌++◌, some, length,
}
use benchmark_platform.Disk.{Answer}
use benchmark_platform.Disk.TestFile.{Calls, Made, ensure_test_file}
use benchmark_platform.Disk.TestFile.Stream.{IsBytes, stream}
use benchmark_platform.Disk.TestFile.Makes.{Willing, ensure_test_file-stream}

-- The bytes of a word, the lowest first.
abbrev bytes_of_word : ℕ → List ℕ
bytes_of_word x =
    x % 256
    ∷ x / 2 ^ 8 % 256
    ∷ x / 2 ^ 16 % 256
    ∷ x / 2 ^ 24 % 256
    ∷ x / 2 ^ 32 % 256
    ∷ x / 2 ^ 40 % 256
    ∷ x / 2 ^ 48 % 256
    ∷ x / 2 ^ 56 % 256
    ∷ []

abbrev little_endian : List ℕ → List ℕ
little_endian [] = []
little_endian (x ∷ words) = bytes_of_word x ++ little_endian words

length-little_endian : (words : List ℕ) → length (little_endian words) ≡ 8 * length words
length-little_endian [] = refl
length-little_endian (x ∷ words) = omega (arith, length-little_endian words)

little_endian-append :
    (xs ys : List ℕ) → little_endian (xs ++ ys) ≡ little_endian xs ++ little_endian ys
little_endian-append [] ys = refl
little_endian-append (x ∷ xs) ys = ap (λ l. bytes_of_word x ++ l) (little_endian-append xs ys)

little_endian-IsBytes : IsBytes little_endian
little_endian-IsBytes = record { eight = length-little_endian; in_order = little_endian-append }

abbrev writes_of_block : List Answer
writes_of_block =
    Answer.up_to 4
    ∷ Answer.up_to 8
    ∷ Answer.up_to 8
    ∷ Answer.up_to 8
    ∷ Answer.up_to 8
    ∷ Answer.up_to 8
    ∷ Answer.up_to 8
    ∷ Answer.up_to 8
    ∷ []

-- No fallocate, so the file is sized by ftruncate; the first write of a block is short.
abbrev calls : Calls
calls = record {
  sized = true;
  created = true;
  allocated = false;
  truncated = true;
  opened = true;
  writes = writes_of_block ∷ writes_of_block ∷ [];
  synced = true;
}

calls-Willing : Willing 8 12 calls
calls-Willing = record {
  creates = refl;
  sizes = refl;
  opens = refl;
  lets = omega arith;
  enough = omega arith;
  syncs = refl;
}

ensure_test_file-stream_example :
    ensure_test_file little_endian 8 calls (some (1 ∷ 2 ∷ [])) 12 5
    ≡ Made.returned (stream little_endian little_endian-IsBytes 12 (bit_or 5 1)) 12
ensure_test_file-stream_example =
    ensure_test_file-stream little_endian little_endian-IsBytes 8 refl (omega arith) calls
      (some (1 ∷ 2 ∷ [])) 12 5 (omega arith) (λ sized. omega arith) calls-Willing
