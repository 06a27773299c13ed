-- ===== src/Disk/Batch.antt =====
-- `DiskSeqWorkload::run_batch`: what a batch leaves, whatever the kernel answers.
use benchmark_platform.Prelude.{
  ℕ, zero, suc, ◌+◌, ◌*◌, ◌≤◌, ◌≡◌, Bool, true, false, refl, sym, ap₂, subst, ◌∙◌, arith, List,
  length, Bool-cases, inl, inr,
}
use benchmark_platform.Prelude.Words.{u64}
use benchmark_platform.Disk.{Answer, Status}
use benchmark_platform.Disk.Seq.{
  DiskSeq, Batch, transfer, advance, stopped_at, move_blocks, sync_batch, run_batch,
  blocks_per_batch,
}
use benchmark_platform.Disk.Regions.{Fits}
use benchmark_platform.Disk.Frame.{Frames, Frames-refl, Frames-trans, transfer-Frames}

advance-Fits : (w : DiskSeq) (bytes : ℕ) → Fits w bytes → Fits (advance w) bytes
unfolding advance
advance-Fits w bytes fit = record {
  some_block = fit.some_block;
  whole = fit.whole;
  room = ground (arith, fit.room, fit.some_block);
  inside = fit.inside;
}

-- What is counted: all of the blocks, when the batch returns normally.
abbrev pub Counts : Status → (moved most : ℕ) → Type 0
Counts Status.io_done moved most = moved ≡ most
Counts _ moved most = moved ≤ most

-- `r` is what is left of a batch that began with `w` and the file, with so many bytes moved.
pub record Moves (w : DiskSeq) (file : List ℕ) (most bytes_written : ℕ) (r : Batch) : Type 0 where
  pub frames : Frames w.region_off w.region_len file r.file
  pub fits : Fits r.workload (length r.file)
  pub region : (r.workload.region_off ≡ w.region_off) × (r.workload.region_len ≡ w.region_len)
  pub same_mode : r.workload.writing ≡ w.writing
  pub counts : Counts r.status r.moved most
  pub budget : r.bytes_written ≡ bytes_written

stopped-Moves :
    (status : Status) (w : DiskSeq) (file file' : List ℕ) (moved most bytes_written : ℕ)
    → Frames w.region_off w.region_len file file'
    → Fits w (length file)
    → Counts status moved most
    → Moves w file most bytes_written (stopped_at status w file' moved bytes_written)
stopped-Moves status w file file' moved most bytes_written f fit c = record {
  frames = f;
  fits = subst (Fits w) (sym f.same_length) fit;
  region = (refl, refl);
  same_mode = refl;
  counts = c;
  budget = refl;
}

move_blocks-Moves :
    (script : ℕ → List Answer) (left b : ℕ) (w : DiskSeq) (file : List ℕ) (moved bytes_written : ℕ)
    → Fits w (length file)
    → Moves w file
        (moved + left * w.block)
        bytes_written
        (move_blocks script left b w file moved bytes_written)
unfolding move_blocks advance
move_blocks-Moves script zero b w file moved bytes_written fit =
    stopped-Moves Status.io_done w file file moved _ bytes_written
      (Frames-refl w.region_off w.region_len file) fit (grind arith)
move_blocks-Moves script (suc left) b w file moved bytes_written fit =
    let f : Frames w.region_off w.region_len file (transfer (script b) w file).1 =
      transfer-Frames (script b) w file fit in
    let after : List ℕ = (transfer (script b) w file).1 in
    let le : moved ≤ moved + suc left * w.block = grind arith in
    elim (transfer (script b) w file).0
      as (λ status. Moves w file (moved + suc left * w.block) bytes_written (elim status [
        | Status.io_done ↦
            move_blocks script left (suc b) (advance w) after (moved + w.block) bytes_written
        | Status.io_thrown ↦ stopped_at Status.io_thrown w after moved bytes_written
        | Status.io_pending ↦ stopped_at Status.io_pending w after moved bytes_written
      ])) [
        | Status.io_thrown ↦
            stopped-Moves Status.io_thrown w file after moved _ bytes_written f fit le
        | Status.io_pending ↦
            stopped-Moves Status.io_pending w file after moved _ bytes_written f fit le
        | Status.io_done ↦
            let ih : Moves (advance w) after (moved + w.block + left * w.block) bytes_written (
                move_blocks script left (suc b) (advance w) after (moved + w.block) bytes_written) =
              move_blocks-Moves script left (suc b) (advance w) after (moved + w.block)
                bytes_written
                (advance-Fits w (length after) (subst (Fits w) (sym f.same_length) fit)) in
            let sum : moved + w.block + left * w.block ≡ moved + suc left * w.block = grind arith in
            record {
              frames = Frames-trans w.region_off w.region_len file after _ f ih.frames;
              fits = ih.fits;
              region = ih.region;
              same_mode = ih.same_mode;
              budget = ih.budget;
              counts = subst (Counts _ _) sum ih.counts;
            }
      ]

-- The write budget: it counts the bytes of a batch of writes that returns normally.
abbrev pub Budgets : Status → (writing : Bool) (before most after : ℕ) → Type 0
Budgets Status.io_done true before most after = after ≡ u64 (before + most)
Budgets _ _ before most after = after ≡ before

-- What a batch that began with `w` and the file leaves.
pub record Keeps (w : DiskSeq) (file : List ℕ) (bytes_written : ℕ) (r : Batch) : Type 0 where
  pub frames : Frames w.region_off w.region_len file r.file
  pub fits : Fits r.workload (length r.file)
  pub region : (r.workload.region_off ≡ w.region_off) × (r.workload.region_len ≡ w.region_len)
  pub counts : Counts r.status r.moved (blocks_per_batch * w.block)
  pub budget : Budgets r.status w.writing bytes_written (blocks_per_batch * w.block) r.bytes_written

sync_batch_cases :
    (status : Status) (synced : Bool) (w : DiskSeq) (file : List ℕ) (bytes_written : ℕ)
    (v : DiskSeq) (after : List ℕ) (moved now : ℕ)
    → Moves w file (blocks_per_batch * w.block) bytes_written (stopped_at status v after moved now)
    → Keeps w file bytes_written (sync_batch synced (stopped_at status v after moved now))
unfolding sync_batch
sync_batch_cases Status.io_thrown synced w file bytes_written v after moved now m = record {
  frames = m.frames;
  fits = m.fits;
  region = m.region;
  counts = m.counts;
  budget = m.budget;
}
sync_batch_cases Status.io_pending synced w file bytes_written v after moved now m = record {
  frames = m.frames;
  fits = m.fits;
  region = m.region;
  counts = m.counts;
  budget = m.budget;
}
sync_batch_cases Status.io_done synced w file bytes_written v after moved now m =
    elim (Bool-cases v.writing) [
      | inr reads ↦
          let e : sync_batch synced (stopped_at Status.io_done v after moved now)
              ≡ stopped_at Status.io_done v after moved now =
            rw (sync_batch, reads) refl in
          let quiet : w.writing ≡ false = sym m.same_mode ∙ reads in
          subst (Keeps w file bytes_written) (sym e) (record {
            frames = m.frames;
            fits = m.fits;
            region = m.region;
            counts = m.counts;
            budget =
                subst (λ b. Budgets Status.io_done b bytes_written (blocks_per_batch * w.block) now)
                  (sym quiet) m.budget;
          })
      | inl writes ↦
          let loud : w.writing ≡ true = sym m.same_mode ∙ writes in
          elim (Bool-cases synced) [
            | inr failed ↦
                let e : sync_batch synced (stopped_at Status.io_done v after moved now)
                    ≡ stopped_at Status.io_thrown v after moved now =
                  rw (sync_batch, writes, failed) refl in
                subst (Keeps w file bytes_written) (sym e) (record {
                  frames = m.frames;
                  fits = m.fits;
                  region = m.region;
                  counts = omega (arith, m.counts);
                  budget = m.budget;
                })
            | inl succeeded ↦
                let e : sync_batch synced (stopped_at Status.io_done v after moved now)
                    ≡ stopped_at Status.io_done v after moved (u64 (now + moved)) =
                  rw (sync_batch, writes, succeeded) refl in
                subst (Keeps w file bytes_written) (sym e) (record {
                  frames = m.frames;
                  fits = m.fits;
                  region = m.region;
                  counts = m.counts;
                  budget =
                      subst
                        (λ b.
                          Budgets Status.io_done b bytes_written (blocks_per_batch * w.block)
                            (u64 (now + moved)))
                        (sym loud) (ap₂ (λ a b. u64 (a + b)) m.budget m.counts);
                })
          ]
    ]

-- Whatever the kernel answers, a sequential batch, from a position where a block fits in the
-- region, changes no byte of the file outside its region and not the length, keeps the region,
-- and leaves the position where the next block still fits; a batch that returns normally has
-- moved 16 blocks, and has added them to the write budget if it writes.
pub run_batch-Keeps :
    (script : ℕ → List Answer) (synced : Bool) (w : DiskSeq) (file : List ℕ) (bytes_written : ℕ)
    → Fits w (length file)
    → Keeps w file bytes_written (run_batch script synced w file bytes_written)
unfolding run_batch
run_batch-Keeps script synced w file bytes_written fit =
    sync_batch_cases _ synced w file bytes_written _ _ _ _ (
      subst
        (λ most.
          Moves w file most bytes_written
            (move_blocks script blocks_per_batch 0 w file 0 bytes_written))
        (omega arith) (move_blocks-Moves script blocks_per_batch 0 w file 0 bytes_written fit))
