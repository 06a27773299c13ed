-- ===== src/CpuHash/Walk.antt =====
-- The blocks that a batch walks over, and the digest that it leaves.
use native.Mathlib.Nat.{div-add-mod, mul-add-mod_self_left, mod_self, mod-eq_of_lt, mod-lt}
use benchmark_platform.Prelude.{
  ℕ, zero, suc, ◌+◌, ◌*◌, ◌/◌, ◌%◌, ◌<◌, ◌≡◌, refl, arith, ap, ◌∙◌, sym, length, drop, ◌==◌,
  if◌then◌else◌, Bool-cases, inl, inr, ==_iff,
}
use benchmark_platform.Prelude.Words.{u64}
use benchmark_platform.Prelude.Random.{Generator}
use benchmark_platform.CpuHash.{
  hash_block, hash_block_bytes, p1, buffer_bytes_for, CpuHashWorkload, draws, setup, hash_ops,
  run_batch, batch_ops,
}

pub record IsReady (w : CpuHashWorkload) : Type 0 where
  pub size : length w.words ≡ w.blocks * 8
  pub inside : w.next_block < w.blocks

-- The digest after `n` operations, the first of them on the block `start` modulo the number of blocks.
pub digest : CpuHashWorkload → (n start acc : ℕ) → ℕ
digest w zero start acc = acc
digest w (suc n) start acc =
    digest w n (start + 1)
      (u64 (u64 (acc * p1) + hash_block (drop (start % w.blocks * 8) w.words) w.seed))

length-draws : (g : Generator) (n : ℕ) (s : g.State) → length (draws g n s).0 ≡ n
unfolding draws
length-draws g zero s = refl
length-draws g (suc n) s = ap suc (length-draws g n (g.next s).1)

bytes_bounds :
    (ws : ℕ)
    → (buffer_bytes_for ws / 8 ≡ buffer_bytes_for ws / hash_block_bytes * 8)
      × (0 < buffer_bytes_for ws / hash_block_bytes)
unfolding buffer_bytes_for
bytes_bounds ws = ground arith

-- The set-up of the hashing workload draws the words of a whole number of blocks, at least one,
-- and starts at the first.
pub setup-IsReady :
    (g : Generator) (seed thread_index ws : ℕ) → IsReady (setup g seed thread_index ws)
unfolding setup
setup-IsReady g seed thread_index ws =
    let (whole, some_block) = bytes_bounds ws in
    record { size = length-draws g _ _ ∙ whole; inside = some_block }

-- The next block in the source is the next number modulo the number of blocks.
next_lem : (s m : ℕ) → 0 < m → (if s % m + 1 == m then 0 else s % m + 1) ≡ (s + 1) % m
next_lem s m pos =
    let r = s % m in
    let split : m * (s / m) + (r + 1) ≡ s + 1 = omega (arith, div-add-mod s m) in
    let same : (s + 1) % m ≡ (r + 1) % m =
      ap (λ k. k % m) (sym split) ∙ mul-add-mod_self_left m (s / m) (r + 1) in
    elim (Bool-cases (r + 1 == m)) [
      | inl e ↦
          let at : r + 1 ≡ m = (==_iff (r + 1) m).0 e in
          rw e (sym (same ∙ ap (λ k. k % m) at ∙ mod_self m))
      | inr ne ↦
          let lt : r + 1 < m = ground (arith, mod-lt s pos, ==_iff (r + 1) m) in
          rw ne (sym (same ∙ mod-eq_of_lt lt))
    ]

hash_ops_lem :
    (w : CpuHashWorkload) (n s acc : ℕ)
    → 0 < w.blocks
    → hash_ops w n (s % w.blocks) acc ≡ ((s + n) % w.blocks, digest w n s acc)
unfolding hash_ops digest
hash_ops_lem w zero s acc pos = let e : s ≡ s + 0 = omega arith in ap (λ k. (k % w.blocks, acc)) e
hash_ops_lem w (suc n) s acc pos =
    let e : s + 1 + n ≡ s + suc n = omega arith in
    let acc' = u64 (u64 (acc * p1) + hash_block (drop (s % w.blocks * 8) w.words) w.seed) in
    rw (next_lem s w.blocks pos)
      (hash_ops_lem w n (s + 1) acc' pos ∙ ap (λ k. (k % w.blocks, digest w n (s + 1) acc')) e)

-- A batch on a ready hashing workload hashes 65536 blocks one after the other, goes on with the
-- first behind the last, leaves their digest and the number of the next block, and keeps the
-- workload ready.
pub run_batch-digest :
    (w : CpuHashWorkload)
    → IsReady w
    → ((run_batch w).0 ≡ record w {
      next_block = (w.next_block + batch_ops) % w.blocks;
      acc = digest w batch_ops w.next_block w.acc;
    })
      × ((run_batch w).1 ≡ batch_ops)
      × IsReady (run_batch w).0
unfolding run_batch
run_batch-digest w ok =
    let some_block : 0 < w.blocks = omega (arith, ok.inside) in
    let here : w.next_block % w.blocks ≡ w.next_block = mod-eq_of_lt ok.inside in
    let walked : hash_ops w batch_ops w.next_block w.acc
        ≡ ((w.next_block + batch_ops) % w.blocks, digest w batch_ops w.next_block w.acc) =
      ap (λ k. hash_ops w batch_ops k w.acc) (sym here)
      ∙ hash_ops_lem w batch_ops w.next_block w.acc some_block in
    rw walked
      (refl, refl, record { size = ok.size; inside = mod-lt (w.next_block + batch_ops) some_block })
