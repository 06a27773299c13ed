-- ===== src/Disk/Rand.antt =====
-- engine/src/workloads/disk_io.cpp: `DiskRandWorkload`. `current` is the histogram `hist_[cur_]` with
-- `used_[cur_]`, `other` the second one; the number of buckets is a parameter, `latency_buckets` in
-- the program. The generator is the library's. Of `open_for`, the size check is modelled.
use Prim.Native.Nat.{bit_xor}
use benchmark_platform.Prelude.{
  ℕ, zero, suc, ◌+◌, ◌*◌, ◌/◌, ◌%◌, max, Bool, Option, none, some, List, [], ◌∷◌, ◌++◌, ltb, leb,
  if◌then◌else◌, get_or, set, replicate, drop,
}
use benchmark_platform.Prelude.Words.{u32, u64, golden}
use benchmark_platform.Prelude.Random.{Generator}
use benchmark_platform.Disk.{Answer, Status, full_pread, full_pwrite}

pub record Half : Type 0 where
  pub hist : List ℕ
  pub used : ℕ

pub record Histograms : Type 0 where
  pub current : Half
  pub other : Half

module _ (buckets : ℕ) where
  abbrev pub empty_half : Half
  empty_half = record { hist = replicate (suc buckets) 0; used = 0 }

  abbrev pub bucket_of : (ns : ℕ) → ℕ
  bucket_of ns = if leb buckets (ns / 1000) then buckets else ns / 1000

  -- `record`, for the current half
  unfoldable pub record_ns : (ns : ℕ) → Half → Half
  record_ns ns h = record {
    hist = set h.hist (bucket_of ns) (u32 (get_or h.hist (bucket_of ns) 0 + 1));
    used = max h.used (bucket_of ns + 1);
  }

  -- The half that a trial begins with, from what it was two trials ago.
  unfoldable pub clear_half : Half → Half
  clear_half h =
      if ltb 0 h.used
      then record { hist = set (replicate h.used 0 ++ drop h.used h.hist) buckets 0; used = 0 }
      else h

  unfoldable pub before_trial : Histograms → Histograms
  before_trial h = record { current = clear_half h.other; other = h.current }

  unfoldable pub record_all : List ℕ → Half → Half
  record_all [] h = h
  record_all (ns ∷ more) h = record_all more (record_ns ns h)

abbrev pub ios_per_batch : ℕ
ios_per_batch = 32

module _ (g : Generator) where
  open g use {State, seed, next}

  pub record DiskRand : Type 0 where
    pub block : ℕ
    pub writing : Bool
    pub buf : List ℕ
    pub blocks : ℕ
    pub rng : State
    pub histograms : Histograms

  -- `words[i] = rng_()`
  fill_random : (n : ℕ) → State → List ℕ × State
  fill_random zero s = ([], s)
  fill_random (suc n) s =
      let (word, s1) = next s in let (words, last) = fill_random n s1 in (word ∷ words, last)

  -- `words_of` are the words of a block of zeros, `bytes_of` the bytes of words.
  unfoldable pub setup :
      (buckets : ℕ) (bytes_of : List ℕ → List ℕ) (file_bytes block context_seed thread_index : ℕ)
      (writing : Bool)
      → Option DiskRand
  unfolding fill_random
  setup buckets bytes_of file_bytes block context_seed thread_index writing =
      let s = seed (bit_xor context_seed (u64 (golden * (thread_index + 1)))) in
      let words = fill_random (block / 8) s in
      if ltb file_bytes block
      then none
      else some (record {
        block = block;
        writing = writing;
        buf = if writing then bytes_of words.0 else replicate block 0;
        blocks = file_bytes / block;
        rng = if writing then words.1 else s;
        histograms = record { current = empty_half buckets; other = empty_half buckets };
      })

  -- What a batch leaves, with the offsets of its transfers.
  pub record Batch : Type 0 where
    pub status : Status
    pub workload : DiskRand
    pub file : List ℕ
    pub bytes_written : ℕ
    pub offsets : List ℕ

  abbrev pub stopped_at :
      Status → DiskRand → (file : List ℕ) (bytes_written : ℕ) (offsets : List ℕ) → Batch
  stopped_at status w file bytes_written offsets = record {
    status = status;
    workload = w;
    file = file;
    bytes_written = bytes_written;
    offsets = offsets;
  }

  unfoldable pub transfer : List Answer → DiskRand → (off : ℕ) → List ℕ → Status × List ℕ
  transfer script w off file =
      if w.writing
      then full_pwrite script w.buf off file
      else ((full_pread script file w.block off).0, file)

  -- The loop, with `left` transfers to come and `i` done; `script i` has the answers to transfer `i`
  -- and `ns i` is how long it takes. After the last one comes `note_written`.
  unfoldable pub move_ios :
      (buckets : ℕ) (script : ℕ → List Answer) (ns : ℕ → ℕ) (left i : ℕ)
      → DiskRand
      → (file : List ℕ) (written bytes_written : ℕ) (offsets : List ℕ) → Batch
  move_ios buckets script ns zero i w file written bytes_written offsets =
      stopped_at Status.io_done w file
        (if w.writing then u64 (bytes_written + written) else bytes_written) offsets
  move_ios buckets script ns (suc left) i w file written bytes_written offsets =
      let (word, rng) = next w.rng in
      let off = word % w.blocks * w.block in
      let after = (transfer (script i) w off file).1 in
      let drawn = record w { rng = rng } in
      let timed = record w {
        rng = rng;
        histograms = record {
          current = record_ns buckets (ns i) w.histograms.current;
          other = w.histograms.other;
        };
      } in
      let more =
        move_ios buckets script ns left (suc i) timed after (written + w.block) bytes_written
          (offsets ++ off ∷ []) in
      elim (transfer (script i) w off file).0 [
        | Status.io_done ↦ more
        | Status.io_thrown ↦
            stopped_at Status.io_thrown drawn after bytes_written (offsets ++ off ∷ [])
        | Status.io_pending ↦
            stopped_at Status.io_pending drawn after bytes_written (offsets ++ off ∷ [])
      ]

  unfoldable pub run_batch :
      (buckets : ℕ) (script : ℕ → List Answer) (ns : ℕ → ℕ)
      → DiskRand
      → (file : List ℕ) (bytes_written : ℕ) → Batch
  run_batch buckets script ns w file bytes_written =
      move_ios buckets script ns ios_per_batch 0 w file 0 bytes_written []
