-- ===== src/Disk/Regions.antt =====
-- `DiskSeqWorkload`: each thread keeps to a region of its own.
use native.Mathlib.Nat.{div-mul-le_self, le-div_iff_mul-le, mul-div_cancel}
use benchmark_platform.Prelude.{
  ℕ, ◌+◌, ◌-◌, ◌*◌, ◌/◌, ◌<◌, ◌≤◌, ◌≡◌, min, max, Bool, true, false, refl, arith, some, List,
  length, ltb, mul_mono,
}
use benchmark_platform.Disk.Seq.{DiskSeq, setup}

mul_sum : (a b c k : ℕ) → a + b ≤ c → a * k + b * k ≤ c * k
mul_sum a b c k h =
    let e : (a + b) * k ≡ a * k + b * k = grind arith in omega (arith, e, mul_mono (a + b) c k h)

-- The region of a thread: from which block on, and how many.
abbrev first_block : (blocks threads i : ℕ) → ℕ
first_block blocks threads i = min (i * max 1 (blocks / max 1 threads)) (blocks - 1)

abbrev block_count : (blocks threads i : ℕ) → ℕ
block_count blocks threads i =
    min (max 1 (blocks / max 1 threads)) (blocks - first_block blocks threads i)

region_inside :
    (blocks threads i : ℕ)
    → 0 < blocks
    → first_block blocks threads i + block_count blocks threads i ≤ blocks
region_inside blocks threads i h = ground arith

region_some : (blocks threads i : ℕ) → 0 < blocks → 0 < block_count blocks threads i
region_some blocks threads i h = ground arith

-- Threads up to the number of blocks have disjoint regions.
regions_apart :
    (blocks threads i j : ℕ)
    → i < j
    → j < threads
    → threads ≤ blocks
    → first_block blocks threads i + block_count blocks threads i ≤ first_block blocks threads j
regions_apart blocks threads i j ij jt tb =
    let q : ℕ = blocks / threads in
    let low : q * threads ≤ blocks = div-mul-le_self blocks threads in
    let one : 1 ≤ q =
      (le-div_iff_mul-le {k = threads} {x = 1} {y = blocks} (omega arith)).1 (omega arith) in
    let next : i * q + q ≤ j * q = grind arith in
    let last : j * q + q ≤ q * threads = grind arith in
    let t1 : max 1 threads ≡ threads = omega arith in
    let q1 : max 1 q ≡ q = omega arith in rw (t1, q1) (omega arith)

-- The workload keeps within its region, which lies in a file of so many bytes.
pub record Fits (w : DiskSeq) (file_bytes : ℕ) : Type 0 where
  pub some_block : 0 < w.block
  pub whole : length w.buf ≡ w.block
  pub room : w.pos + w.block ≤ w.region_len
  pub inside : w.region_off + w.region_len ≤ file_bytes

module _ (file_bytes block threads : ℕ) (writing : Bool) (buf : List ℕ) where
  abbrev set_up : (i : ℕ) → DiskSeq
  set_up i = record {
    block = block;
    writing = writing;
    buf = buf;
    region_off = first_block (file_bytes / block) threads i * block;
    region_len = block_count (file_bytes / block) threads i * block;
    pos = 0;
    batch_units = 16 * block;
  }

  some_blocks : 0 < block → block ≤ file_bytes → 0 < file_bytes / block
  some_blocks h le = (le-div_iff_mul-le {k = block} {x = 1} {y = file_bytes} h).1 (omega arith)

  setup_lem :
      (i : ℕ)
      → 0 < block
      → block ≤ file_bytes
      → setup file_bytes block threads i writing buf ≡ some (set_up i)
  unfolding setup
  setup_lem i h le =
      let large : ltb file_bytes block ≡ false = ground arith in
      let positive : ltb 0 (file_bytes / block) ≡ true = ground (arith, some_blocks h le) in
      let back : first_block (file_bytes / block) threads i * block / block
          ≡ first_block (file_bytes / block) threads i =
        mul-div_cancel (first_block (file_bytes / block) threads i) h in
      rw (setup, large, positive, back) refl

  set_up-Fits :
      (i : ℕ) → 0 < block → block ≤ file_bytes → length buf ≡ block → Fits (set_up i) file_bytes
  set_up-Fits i h le e =
      let blocks : ℕ = file_bytes / block in
      let f : ℕ = first_block blocks threads i in
      let c : ℕ = block_count blocks threads i in
      let whole : blocks * block ≤ file_bytes = div-mul-le_self file_bytes block in
      let a : f + c ≤ blocks = region_inside blocks threads i (some_blocks h le) in
      let b : 0 < c = region_some blocks threads i (some_blocks h le) in
      let ab : f * block + c * block ≤ blocks * block = mul_sum f c blocks block a in
      let bb : 1 * block ≤ c * block = mul_mono 1 c block b in
      record { some_block = h; whole = e; room = omega arith; inside = omega arith }

  -- With a buffer of a block and no more threads than blocks, every thread of the sequential
  -- workload sets up; its region is in the file and has room for a block, and the region of a
  -- later thread begins no earlier than where it ends.
  pub setup-regions :
      (i j : ℕ)
      → 0 < block
      → length buf ≡ block
      → i < j
      → j < threads
      → threads ≤ file_bytes / block
      → (wi : DiskSeq) × (wj : DiskSeq) × (setup file_bytes block threads i writing buf ≡ some wi)
        × (setup file_bytes block threads j writing buf ≡ some wj)
        × Fits wi file_bytes
        × Fits wj file_bytes
        × (wi.region_off + wi.region_len ≤ wj.region_off)
  setup-regions i j h e ij jt tb =
      let blocks : ℕ = file_bytes / block in
      let le : 1 * block ≤ file_bytes =
        (le-div_iff_mul-le {k = block} {x = 1} {y = file_bytes} h).0 (omega arith) in
      let apart : first_block blocks threads i + block_count blocks threads i
          ≤ first_block blocks threads j =
        regions_apart blocks threads i j ij jt tb in
      (
        set_up i,
        set_up j,
        setup_lem i h (omega arith),
        setup_lem j h (omega arith),
        set_up-Fits i h (omega arith) e,
        set_up-Fits j h (omega arith) e,
        mul_sum (first_block blocks threads i) (block_count blocks threads i)
            (first_block blocks threads j) block apart,
      )
