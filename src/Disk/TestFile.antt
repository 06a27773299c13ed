-- ===== src/Disk/TestFile.antt =====
-- engine/src/workloads/disk_io.cpp: `ensure_test_file`. The kernel's answers to its calls are a record.
-- A file that is given a size has bytes of zero. The texts of the errors are left out, and so are the
-- descriptors and what the file holds after an exception. `bytes_of` are the bytes in
-- memory of words.
pub mod Stream
pub mod Blocks
pub mod Fill
pub mod Makes
use Prim.Native.Nat.{bit_or, bit_xor}
use benchmark_platform.Prelude.{
  ℕ, zero, suc, ◌+◌, ◌-◌, ◌/◌, min, Bool, true, false, ◌&&◌, Option, none, some, List, [], ◌∷◌, ltb,
  ◌==◌, length, map, take, flatten, replicate, if◌then◌else◌, ◌||◌,
}
use benchmark_platform.Prelude.Words.{u64, shl64, ◌>>>◌}
use benchmark_platform.Disk.{Answer, Status, full_pwrite}

-- The three steps that make the next word of `x`.
unfoldable pub scramble : ℕ → ℕ
scramble x = let a = bit_xor x (shl64 x 13) in let b = bit_xor a (a >>> 7) in bit_xor b (shl64 b 17)

-- The words that the loop over `i` writes, and the last `x`.
unfoldable pub xorshift_words : (nwords x : ℕ) → List ℕ × ℕ
xorshift_words zero x = ([], x)
xorshift_words (suc nwords) x =
    let (words, last) = xorshift_words nwords (scramble x) in (scramble x ∷ words, last)

-- What the calls answer: whether the size of a file can be asked for; open with O_CREAT; fallocate;
-- ftruncate; open with O_DIRECT; each pwrite, block by block; fdatasync.
pub record Calls : Type 0 where
  pub sized : Bool
  pub created : Bool
  pub allocated : Bool
  pub truncated : Bool
  pub opened : Bool
  pub writes : List (List Answer)
  pub synced : Bool

-- `returned` has the file and the number of bytes written, `pending` a script that ends too early.
pub data Made : Type 0 where
  returned : (file : List ℕ) (written : ℕ) → Made
  thrown pending : Made

-- The file that is there, if it has the right size.
unfoldable pub reused : (sized : Bool) (existing : Option (List ℕ)) (bytes : ℕ) → Option (List ℕ)
reused sized none bytes = none
reused sized (some file) bytes = if sized && length file == bytes then some file else none

module _ (bytes_of : List ℕ → List ℕ) (block : ℕ) where
  -- The loop over `off`, in blocks of `block` bytes, with the answers to the writes of each block.
  unfoldable pub fill_file : List (List Answer) → (bytes off x written : ℕ) (file : List ℕ) → Made
  fill_file [] bytes off x written file = elim (ltb off bytes) [
    | true ↦ Made.pending
    | false ↦ Made.returned file written
  ]
  fill_file (script ∷ writes) bytes off x written file = elim (ltb off bytes) [
    | false ↦ Made.returned file written
    | true ↦
        let fresh = xorshift_words (block / 8) x in
        let len = min block (bytes - off) in
        let wrote = full_pwrite script (take len (bytes_of fresh.0)) off file in
        elim wrote.0 [
          | Status.io_done ↦
              fill_file writes bytes (u64 (off + block)) fresh.1 (u64 (written + len)) wrote.1
          | Status.io_thrown ↦ Made.thrown
          | Status.io_pending ↦ Made.pending
        ]
  ]

  -- After the calls that create the file and give it its size.
  unfoldable pub fill_sized : Calls → (bytes seed : ℕ) → Made
  fill_sized calls bytes seed =
      if calls.opened
      then (elim (fill_file calls.writes bytes 0 (bit_or seed 1) 0 (replicate bytes 0)) [
        | Made.returned file written ↦
            if calls.synced then Made.returned file written else Made.thrown
        | Made.thrown ↦ Made.thrown
        | Made.pending ↦ Made.pending
      ])
      else Made.thrown

  -- `existing` is the file at the path, if there is one.
  unfoldable pub ensure_test_file : Calls → (existing : Option (List ℕ)) (bytes seed : ℕ) → Made
  ensure_test_file calls existing bytes seed = elim (reused calls.sized existing bytes) [
    | some file ↦ Made.returned file 0
    | none ↦
        if calls.created && (calls.allocated || calls.truncated)
        then fill_sized calls bytes seed
        else Made.thrown
  ]
