-- ===== src/Tests/Disks.antt =====
-- The disk workloads: the theorems at concrete inputs, with blocks of two bytes.
use benchmark_platform.Prelude.{
  ℕ, ◌+◌, ◌*◌, ◌≤◌, ◌≡◌, refl, arith, true, false, List, [], ◌∷◌, some, get_or, get_or-replicate,
}
use benchmark_platform.Prelude.Random.{Generator}
use benchmark_platform.Disk.{Answer, full_pread, full_pwrite}
use benchmark_platform.Disk.Transfers.{Reads, full_pread-Reads}
use benchmark_platform.Disk.Writes.{Writes, full_pwrite-Writes}
use benchmark_platform.Disk.Seq as Seq
use benchmark_platform.Disk.Seq.{DiskSeq}
use benchmark_platform.Disk.Regions as Regions
use benchmark_platform.Disk.Regions.{setup-regions}
use benchmark_platform.Disk.Batch as Batch
use benchmark_platform.Disk.Batch.{run_batch-Keeps}
use benchmark_platform.Disk.Rand as Rand
use benchmark_platform.Disk.Rand.{Histograms, empty_half, record_all, before_trial, DiskRand}
use benchmark_platform.Disk.Histogram.{IsHistogram, calls_in, before_trial-record_all}
use benchmark_platform.Disk.Offsets as Offsets
use benchmark_platform.Disk.Offsets.{run_batch-Keeps_blocks}

abbrev file : List ℕ
file = 1 ∷ 2 ∷ 3 ∷ 4 ∷ 5 ∷ 6 ∷ 7 ∷ 8 ∷ []

-- One byte, then an error.
abbrev script : List Answer
script = Answer.up_to 1 ∷ Answer.io_failed ∷ []

full_pread-Reads_example : Reads script file 2 4 (full_pread script file 2 4)
full_pread-Reads_example = full_pread-Reads script file 2 4

full_pwrite-Writes_example : Writes file 4 (9 ∷ 9 ∷ []) (full_pwrite script (9 ∷ 9 ∷ []) 4 file)
full_pwrite-Writes_example = full_pwrite-Writes script file 4 (9 ∷ 9 ∷ []) (omega arith)

setup-regions_example :
    (wi : DiskSeq) × (wj : DiskSeq) × (Seq.setup 8 2 2 0 true (9 ∷ 9 ∷ []) ≡ some wi)
    × (Seq.setup 8 2 2 1 true (9 ∷ 9 ∷ []) ≡ some wj)
    × Regions.Fits wi 8
    × Regions.Fits wj 8
    × (wi.region_off + wi.region_len ≤ wj.region_off)
setup-regions_example =
    setup-regions 8 2 2 true (9 ∷ 9 ∷ []) 0 1 (omega arith) refl (omega arith) (omega arith)
      (omega arith)

abbrev writer : DiskSeq
writer = record {
  block = 2;
  writing = true;
  buf = 9 ∷ 9 ∷ [];
  region_off = 4;
  region_len = 4;
  pos = 0;
  batch_units = 32;
}

writer-Fits : Regions.Fits writer 8
writer-Fits = record {
  some_block = omega arith;
  whole = refl;
  room = omega arith;
  inside = omega arith;
}

run_batch-Keeps_example : Batch.Keeps writer file 0 (Seq.run_batch (λ b. script) true writer file 0)
run_batch-Keeps_example = run_batch-Keeps (λ b. script) true writer file 0 writer-Fits

-- Four buckets; a trial with calls of 0, 1 and 9 microseconds.
abbrev calls : List ℕ
calls = 700 ∷ 1200 ∷ 9000 ∷ []

abbrev histograms : Histograms
histograms = record { current = empty_half 4; other = empty_half 4 }

empty-IsHistogram : IsHistogram 4 (empty_half 4)
empty-IsHistogram = record {
  size = refl;
  beyond = λ b h. get_or-replicate 5 0 b;
  bounded = omega arith;
}

before_trial-record_all_example :
    (get_or (record_all 4 calls (before_trial 4 histograms).current).hist 4 0 ≡ calls_in 4 4 calls)
    × IsHistogram 4 (record_all 4 calls (before_trial 4 histograms).current)
    × ((before_trial 4 histograms).other ≡ histograms.current)
before_trial-record_all_example =
    before_trial-record_all 4 histograms calls 4 empty-IsHistogram (omega arith)

abbrev counter : Generator
counter = record { State = ℕ; seed = λ n. n; next = λ n. (n * 5, n + 1) }

abbrev reader : DiskRand counter
reader = record {
  block = 2;
  writing = false;
  buf = 0 ∷ 0 ∷ [];
  blocks = 4;
  rng = 3;
  histograms = histograms;
}

reader-Fits : Offsets.Fits counter reader 8
reader-Fits = record {
  some_block = omega arith;
  some_blocks = omega arith;
  whole = refl;
  inside = omega arith;
}

run_batch-Keeps_blocks_example :
    Offsets.Keeps counter reader file
      (Rand.run_batch counter 4 (λ i. script) (λ i. 700) reader file 0)
run_batch-Keeps_blocks_example =
    run_batch-Keeps_blocks counter 4 (λ i. script) (λ i. 700) reader file 0 reader-Fits
