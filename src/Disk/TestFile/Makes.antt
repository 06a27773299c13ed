-- ===== src/Disk/TestFile/Makes.antt =====
-- `ensure_test_file`: it returns, with what the file then holds.
use Prim.Native.Nat.{bit_or}
use benchmark_platform.Prelude.{
  ℕ, ◌+◌, ◌-◌, ◌*◌, ◌/◌, ◌^◌, ◌<◌, ◌≤◌, ◌≡◌, ◌≢◌, refl, subst, arith, Bool, true, false, ◌||◌, ◌==◌,
  Option, none, some, List, length, replicate, length-replicate, All, Bool-cases, inl, inr,
}
use benchmark_platform.Disk.{Answer}
use benchmark_platform.Disk.TestFile.{Calls, Made, reused, fill_file, fill_sized, ensure_test_file}
use benchmark_platform.Disk.TestFile.Stream.{IsBytes, stream}
use benchmark_platform.Disk.TestFile.Fill.{
  Holds, Lets, Holds-Returns, fill_file-Holds, fill_file-Returns,
}

-- There is no file of that size at the path, or its size cannot be asked for.
abbrev pub Stale : (sized : Bool) (existing : Option (List ℕ)) (bytes : ℕ) → Type 0
Stale sized none bytes = Unit
Stale sized (some file) bytes = sized ≡ true → length file ≢ bytes

reused-Stale :
    (sized : Bool) (existing : Option (List ℕ)) (bytes : ℕ)
    → Stale sized existing bytes
    → reused sized existing bytes ≡ none
unfolding reused
reused-Stale sized none bytes stale = refl
reused-Stale false (some file) bytes stale = refl
reused-Stale true (some file) bytes stale = elim (Bool-cases (length file == bytes)) [
  | inl same ↦ absurd (stale refl (ground arith))
  | inr other ↦ rw (reused, other) refl
]

-- No call fails, and the writes of each of the blocks go on until it is written.
pub record Willing (block bytes : ℕ) (calls : Calls) : Type 0 where
  pub creates : calls.created ≡ true
  pub sizes : (calls.allocated || calls.truncated) ≡ true
  pub opens : calls.opened ≡ true
  pub lets : All (Lets block) calls.writes
  pub enough : bytes ≤ length calls.writes * block
  pub syncs : calls.synced ≡ true

module _ (bytes_of : List ℕ → List ℕ) (law : IsBytes bytes_of) (block : ℕ)
    (whole : block ≡ 8 * (block / 8)) (some_block : 0 < block) where
  fill_file-new :
      (writes : List (List Answer)) (bytes x : ℕ)
      → bytes + block < 2 ^ 64
      → All (Lets block) writes
      → bytes ≤ length writes * block
      → fill_file bytes_of block writes bytes 0 x 0 (replicate bytes 0)
        ≡ Made.returned (stream bytes_of law bytes x) bytes
  fill_file-new writes bytes x small lets enough =
      let blank : List ℕ = replicate bytes 0 in
      let made : Made = fill_file bytes_of block writes bytes 0 x 0 blank in
      let all : bytes - 0 ≡ bytes = omega arith in
      Holds-Returns (stream bytes_of law bytes x) bytes made
        (subst (λ n. Holds (stream bytes_of law n x) bytes made) all
          (fill_file-Holds bytes_of law block whole some_block writes bytes 0 x 0 blank
            (length-replicate bytes 0) small (omega arith)))
        (fill_file-Returns bytes_of law block whole some_block writes bytes 0 x 0 blank small lets
          (omega (arith, enough)))

  -- With blocks of a whole number of words, no file of that size at the path (or one whose size
  -- cannot be asked for), and a kernel whose calls do not fail, allows ftruncate where it does
  -- not allow fallocate, and lets a byte through for each answer to a write, with an answer for
  -- each byte of a block, ensure_test_file returns: it has counted all of the bytes, and the file
  -- is the first bytes of one stream of words from the seed, which goes on from block to block;
  -- the size and a block are below 2^64 together.
  pub ensure_test_file-stream :
      (calls : Calls) (existing : Option (List ℕ)) (bytes seed : ℕ)
      → bytes + block < 2 ^ 64
      → Stale calls.sized existing bytes
      → Willing block bytes calls
      → ensure_test_file bytes_of block calls existing bytes seed
        ≡ Made.returned (stream bytes_of law bytes (bit_or seed 1)) bytes
  unfolding ensure_test_file fill_sized
  ensure_test_file-stream calls existing bytes seed small stale will =
      rw
        (
          ensure_test_file,
          reused-Stale calls.sized existing bytes stale,
          will.creates,
          will.sizes,
          fill_sized,
          will.opens,
          fill_file-new calls.writes bytes (bit_or seed 1) small will.lets will.enough,
          will.syncs,
        )
        refl
