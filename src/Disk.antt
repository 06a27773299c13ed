-- ===== src/Disk.antt =====
-- engine/src/workloads/disk_io.cpp: `full_pread` and `full_pwrite`. The kernel is a script with an
-- answer to each `pread` or `pwrite`. A transfer takes as many bytes as are asked for (and, when it
-- reads, as the file still has), or as its answer says if these are fewer. The texts of the errors
-- are left out.
pub mod Transfers
pub mod Writes
pub mod Seq
pub mod Regions
pub mod Frame
pub mod Batch
pub mod Rand
pub mod Histogram
pub mod Offsets
pub mod TestFile
pub mod Paths
use benchmark_platform.Prelude.{
  ℕ, zero, suc, ◌+◌, ◌-◌, min, true, false, List, [], ◌∷◌, ◌++◌, ltb, ◌==◌, length, take, drop,
}

pub data Answer : Type 0 where
  up_to : ℕ → Answer
  io_failed : Answer

-- `io_pending` is a script that ends while the loop still runs, `io_thrown` an exception.
pub data Status : Type 0 where
  io_done io_thrown io_pending : Status

-- The loop of `full_pread`, with the bytes that are in the buffer so far.
unfoldable pub pread_from :
    List Answer → (file : List ℕ) (len off done : ℕ) (buf : List ℕ) → Status × List ℕ
pread_from [] file len off done buf = elim (ltb done len) [
  | true ↦ (Status.io_pending, buf)
  | false ↦ (Status.io_done, buf)
]
pread_from (answer ∷ script) file len off done buf = elim (ltb done len) [
  | false ↦ (Status.io_done, buf)
  | true ↦ elim answer [
    | io_failed ↦ (Status.io_thrown, buf)
    | up_to k ↦
        let n = min k (min (len - done) (length file - (off + done))) in
        elim (n == 0) [
          | true ↦ (Status.io_thrown, buf)
          | false ↦
              pread_from script file len off (done + n) (buf ++ take n (drop (off + done) file))
        ]
  ]
]

unfoldable pub full_pread : List Answer → (file : List ℕ) (len off : ℕ) → Status × List ℕ
full_pread script file len off = pread_from script file len off 0 []

-- The file after `bytes` are written at `off`, which is within it.
abbrev pub write_at : List ℕ → (off : ℕ) → List ℕ → List ℕ
write_at file off bytes = take off file ++ (bytes ++ drop (off + length bytes) file)

-- The loop of `full_pwrite`, with the file.
unfoldable pub pwrite_from :
    List Answer → (buf : List ℕ) (off done : ℕ) (file : List ℕ) → Status × List ℕ
pwrite_from [] buf off done file = elim (ltb done (length buf)) [
  | true ↦ (Status.io_pending, file)
  | false ↦ (Status.io_done, file)
]
pwrite_from (answer ∷ script) buf off done file = elim (ltb done (length buf)) [
  | false ↦ (Status.io_done, file)
  | true ↦ elim answer [
    | io_failed ↦ (Status.io_thrown, file)
    | up_to k ↦
        let n = min k (length buf - done) in
        elim (n == 0) [
          | true ↦ (Status.io_thrown, file)
          | false ↦
              pwrite_from script buf off (done + n)
                (write_at file (off + done) (take n (drop done buf)))
        ]
  ]
]

unfoldable pub full_pwrite :
    List Answer → (buf : List ℕ) (off : ℕ) (file : List ℕ) → Status × List ℕ
full_pwrite script buf off file = pwrite_from script buf off 0 file
