-- ===== src/Disk/Seq.antt =====
-- engine/src/workloads/disk_io.cpp: `DiskSeqWorkload`. The descriptor, the path and the counters
-- that are only reported are left out. `setup` sees the size of the file that it opens; a `none` is
-- its exception for a file smaller than a block.
use benchmark_platform.Prelude.{
  ℕ, zero, suc, ◌+◌, ◌-◌, ◌*◌, ◌/◌, min, max, Bool, Option, none, some, List, ltb, if◌then◌else◌,
}
use benchmark_platform.Prelude.Words.{u64}
use benchmark_platform.Disk.{Answer, Status, full_pread, full_pwrite}

abbrev pub blocks_per_batch : ℕ
blocks_per_batch = 16

pub record DiskSeq : Type 0 where
  pub block : ℕ
  pub writing : Bool
  pub buf : List ℕ
  pub region_off : ℕ
  pub region_len : ℕ
  pub pos : ℕ
  pub batch_units : ℕ

-- `buf` is the buffer that `open_for` allocates, of `block` bytes.
unfoldable pub setup :
    (file_bytes block thread_count thread_index : ℕ) (writing : Bool) (buf : List ℕ)
    → Option DiskSeq
setup file_bytes block thread_count thread_index writing buf =
    let blocks = file_bytes / block in
    let per = max 1 (blocks / max 1 thread_count) in
    let region_off = min (thread_index * per) (if ltb 0 blocks then blocks - 1 else 0) * block in
    if ltb file_bytes block
    then none
    else some (record {
      block = block;
      writing = writing;
      buf = buf;
      region_off = region_off;
      region_len = min per (blocks - region_off / block) * block;
      pos = 0;
      batch_units = blocks_per_batch * block;
    })

-- The transfer of one block, with the file after it.
unfoldable pub transfer : List Answer → DiskSeq → List ℕ → Status × List ℕ
transfer script w file =
    if w.writing
    then full_pwrite script w.buf (w.region_off + w.pos) file
    else ((full_pread script file w.block (w.region_off + w.pos)).0, file)

unfoldable pub advance : DiskSeq → DiskSeq
advance w = record w {
  pos = if ltb w.region_len (w.pos + w.block + w.block) then 0 else w.pos + w.block;
}

-- What a batch leaves: the workload, the file, the bytes moved, the bytes in the write budget.
pub record Batch : Type 0 where
  pub status : Status
  pub workload : DiskSeq
  pub file : List ℕ
  pub moved : ℕ
  pub bytes_written : ℕ

abbrev pub stopped_at : Status → DiskSeq → (file : List ℕ) (moved bytes_written : ℕ) → Batch
stopped_at status w file moved bytes_written = record {
  status = status;
  workload = w;
  file = file;
  moved = moved;
  bytes_written = bytes_written;
}

-- The loop over the blocks, of which `left` are to come and `b` are done. `script b` has the answers
-- to the transfer of block `b`. A transfer that returns has moved a whole block.
unfoldable pub move_blocks :
    (script : ℕ → List Answer) (left b : ℕ)
    → DiskSeq
    → (file : List ℕ) (moved bytes_written : ℕ) → Batch
move_blocks script zero b w file moved bytes_written =
    stopped_at Status.io_done w file moved bytes_written
move_blocks script (suc left) b w file moved bytes_written =
    let after = (transfer (script b) w file).1 in
    let more = move_blocks script left (suc b) (advance w) after (moved + w.block) bytes_written in
    elim (transfer (script b) w file).0 [
      | Status.io_done ↦ more
      | Status.io_thrown ↦ stopped_at Status.io_thrown w after moved bytes_written
      | Status.io_pending ↦ stopped_at Status.io_pending w after moved bytes_written
    ]

-- `fdatasync` and `note_written`, for a batch of writes that has moved all of its blocks.
unfoldable pub sync_batch : (synced : Bool) → Batch → Batch
sync_batch synced r = elim r.status [
  | Status.io_done ↦
      if r.workload.writing
      then (if synced
          then record r { bytes_written = u64 (r.bytes_written + r.moved) }
          else record r { status = Status.io_thrown })
      else r
  | Status.io_thrown ↦ r
  | Status.io_pending ↦ r
]

unfoldable pub run_batch :
    (script : ℕ → List Answer) (synced : Bool)
    → DiskSeq
    → (file : List ℕ) (bytes_written : ℕ) → Batch
run_batch script synced w file bytes_written =
    sync_batch synced (move_blocks script blocks_per_batch 0 w file 0 bytes_written)
