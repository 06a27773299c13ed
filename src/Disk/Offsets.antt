-- ===== src/Disk/Offsets.antt =====
-- `DiskRandWorkload::run_batch`: where its transfers lie, whatever the kernel answers.
use native.Mathlib.Nat.{mod-lt, mul-mod_left}
use benchmark_platform.Prelude.{
  ℕ, zero, suc, ◌+◌, ◌*◌, ◌%◌, ◌<◌, ◌≤◌, ◌≡◌, refl, sym, ap, subst, ◌∙◌, arith, List, [], ◌∷◌, ◌++◌,
  length, mul_mono, All, All-append, Bool-cases, inl, inr,
}
use benchmark_platform.Prelude.Random.{Generator}
use benchmark_platform.Disk.{Answer, Status, full_pwrite}
use benchmark_platform.Disk.Writes.{Writes, full_pwrite-Writes, length-written}
use benchmark_platform.Disk.Frame.{Progress-le}
use benchmark_platform.Disk.Rand.{
  DiskRand, Batch, transfer, stopped_at, move_ios, run_batch, ios_per_batch, record_ns,
}

-- A block of the file that is aligned and lies within it.
abbrev pub IsBlock : (block file_bytes off : ℕ) → Type 0
IsBlock block file_bytes off = (off % block ≡ 0) × (off + block ≤ file_bytes)

module _ (g : Generator) where
  open g use {State, next}

  pub record Fits (w : DiskRand g) (file_bytes : ℕ) : Type 0 where
    pub some_block : 0 < w.block
    pub some_blocks : 0 < w.blocks
    pub whole : length w.buf ≡ w.block
    pub inside : w.blocks * w.block ≤ file_bytes

  offset-IsBlock :
      (word blocks block file_bytes : ℕ)
      → 0 < block
      → 0 < blocks
      → blocks * block ≤ file_bytes
      → IsBlock block file_bytes (word % blocks * block)
  offset-IsBlock word blocks block file_bytes h hb inside =
      let lt : word % blocks < blocks = mod-lt word hb in
      let le : suc (word % blocks) * block ≤ blocks * block =
        mul_mono (suc (word % blocks)) blocks block (omega arith) in
      let next : suc (word % blocks) * block ≡ word % blocks * block + block = grind arith in
      (mul-mod_left (word % blocks) block, omega arith)

  length-transfer :
      (script : List Answer) (w : DiskRand g) (off : ℕ) (file : List ℕ)
      → length w.buf ≡ w.block
      → off + w.block ≤ length file
      → length (transfer g script w off file).1 ≡ length file
  unfolding transfer
  length-transfer script w off file whole fits = elim (Bool-cases w.writing) [
    | inr reads ↦
        let e : (transfer g script w off file).1 ≡ file = rw (transfer, reads) refl in ap length e
    | inl writes ↦
        let r : Writes file off w.buf (full_pwrite script w.buf off file) =
          full_pwrite-Writes script file off w.buf (omega arith) in
        let le : r.0 ≤ length w.buf = Progress-le (length w.buf) r.0 _ r.1 in
        let e : transfer g script w off file ≡ full_pwrite script w.buf off file =
          rw (transfer, writes) refl in
        ap (λ t. length t.1) e ∙ ap length r.2 ∙ length-written file off w.buf r.0 (omega arith) le
  ]

  -- What a batch has done to a file, with all the offsets so far.
  pub record Keeps (w : DiskRand g) (file : List ℕ) (r : Batch g) : Type 0 where
    pub same_length : length r.file ≡ length file
    pub fits : Fits r.workload (length file)
    pub aligned : All (IsBlock w.block (length file)) r.offsets

  stopped-Keeps :
      (status : Status) (w v : DiskRand g) (file after : List ℕ) (bytes_written : ℕ)
      (offsets : List ℕ)
      → length after ≡ length file
      → Fits v (length file)
      → All (IsBlock w.block (length file)) offsets
      → Keeps w file (stopped_at g status v after bytes_written offsets)
  stopped-Keeps status w v file after bytes_written offsets e fit all = record {
    same_length = e;
    fits = fit;
    aligned = all;
  }

  move_ios-Keeps :
      (buckets : ℕ) (script : ℕ → List Answer) (ns : ℕ → ℕ) (left i : ℕ) (w : DiskRand g)
      (file : List ℕ) (moved bytes_written : ℕ) (offsets : List ℕ)
      → Fits w (length file)
      → All (IsBlock w.block (length file)) offsets
      → Keeps w file (move_ios g buckets script ns left i w file moved bytes_written offsets)
  unfolding move_ios
  move_ios-Keeps buckets script ns zero i w file moved bytes_written offsets fit all =
      stopped-Keeps Status.io_done w w file file _ offsets refl fit all
  move_ios-Keeps buckets script ns (suc left) i w file moved bytes_written offsets fit all =
      let off : ℕ = (next w.rng).0 % w.blocks * w.block in
      let b : IsBlock w.block (length file) off =
        offset-IsBlock (next w.rng).0 w.blocks w.block (length file) fit.some_block fit.some_blocks
          fit.inside in
      let more : List ℕ = offsets ++ off ∷ [] in
      let now : All (IsBlock w.block (length file)) more =
        All-append (IsBlock w.block (length file)) offsets (off ∷ []) all (b, tt) in
      let t : Status × List ℕ = transfer g (script i) w off file in
      let e : length t.1 ≡ length file = length-transfer (script i) w off file fit.whole b.1 in
      let drawn : DiskRand g = record w { rng = (next w.rng).1 } in
      let timed : DiskRand g = record w {
        rng = (next w.rng).1;
        histograms = record {
          current = record_ns buckets (ns i) w.histograms.current;
          other = w.histograms.other;
        };
      } in
      let fit1 : Fits drawn (length file) = record {
        some_block = fit.some_block;
        some_blocks = fit.some_blocks;
        whole = fit.whole;
        inside = fit.inside;
      } in
      elim t.0
        as (λ status. Keeps w file (elim status [
          | Status.io_done ↦
              move_ios g buckets script ns left (suc i) timed t.1 (moved + w.block) bytes_written
                more
          | Status.io_thrown ↦ stopped_at g Status.io_thrown drawn t.1 bytes_written more
          | Status.io_pending ↦ stopped_at g Status.io_pending drawn t.1 bytes_written more
        ])) [
          | Status.io_thrown ↦
              stopped-Keeps Status.io_thrown w drawn file t.1 bytes_written more e fit1 now
          | Status.io_pending ↦
              stopped-Keeps Status.io_pending w drawn file t.1 bytes_written more e fit1 now
          | Status.io_done ↦
              let fit2 : Fits timed (length t.1) = record {
                some_block = fit.some_block;
                some_blocks = fit.some_blocks;
                whole = fit.whole;
                inside = omega (arith, fit.inside, e);
              } in
              let last : Batch g =
                move_ios g buckets script ns left (suc i) timed t.1 (moved + w.block) bytes_written
                  more in
              let ih : Keeps timed t.1 last =
                move_ios-Keeps buckets script ns left (suc i) timed t.1 (moved + w.block)
                  bytes_written more fit2 (subst (λ n. All (IsBlock w.block n) more) (sym e) now) in
              record {
                same_length = ih.same_length ∙ e;
                fits = subst (Fits last.workload) e ih.fits;
                aligned = subst (λ n. All (IsBlock w.block n) last.offsets) e ih.aligned;
              }
        ]

  -- Whatever the kernel answers and the generator draws, every transfer of a random batch is an
  -- aligned block within the file, and the length of the file stays, for a workload with a block
  -- of the size of its buffer whose blocks lie in the file.
  pub run_batch-Keeps_blocks :
      (buckets : ℕ) (script : ℕ → List Answer) (ns : ℕ → ℕ) (w : DiskRand g) (file : List ℕ)
      (bytes_written : ℕ)
      → Fits w (length file)
      → Keeps w file (run_batch g buckets script ns w file bytes_written)
  unfolding run_batch
  run_batch-Keeps_blocks buckets script ns w file bytes_written fit =
      move_ios-Keeps buckets script ns ios_per_batch 0 w file 0 bytes_written [] fit tt
