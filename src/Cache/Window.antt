-- ===== src/Cache/Window.antt =====
-- `alloc_buffer` for huge pages: the window that is cut out of the mapping.
use benchmark_platform.Prelude.{
  ℕ, ◌+◌, ◌-◌, ◌*◌, ◌%◌, ◌^◌, ◌≤◌, ◌<◌, ◌≡◌, refl, arith, true, false, ◌&&◌, Option, some, List, [],
  ◌∷◌, ◌++◌, ltb, leb, ◌==◌, if◌then◌else◌,
}
use benchmark_platform.Prelude.Words.{u64}
use benchmark_platform.Cache.{huge_page}
use benchmark_platform.Cache.Memory.{Piece, Alloc, align_up, alloc_buffer}

abbrev pub within : (x : ℕ) → Piece → ℕ
within x (start, len) = if leb start x && ltb x (start + len) then 1 else 0

-- In how many of the pieces the address lies.
abbrev pub covers : (x : ℕ) → List Piece → ℕ
covers x [] = 0
covers x (p ∷ ps) = within x p + covers x ps

-- What a mapping of `bytes` and a huge page at `raw` is cut down to.
pub record Window (bytes raw x : ℕ) (a : Alloc) : Type 0 where
  pub start : ℕ
  pub address : a.buffer.address ≡ some start
  pub size : (a.buffer.size ≡ bytes) × (a.buffer.mapped ≡ bytes)
  pub aligned : start % huge_page ≡ 0
  pub once : covers x a.given_back + within x (start, bytes) ≡ within x (raw, bytes + huge_page)

-- For at least a huge page, mapped not within two huge pages of the end of the address space, the
-- buffer begins at a huge page and has the length asked for, and each address of the mapping is
-- in the buffer or in one piece that is given back, but not in both.
pub alloc_buffer-Window :
    (bytes raw smaps x : ℕ) (memalign : Option ℕ)
    → huge_page ≤ bytes
    → raw + bytes + 2 * huge_page < 2 ^ 64
    → (a : Alloc) × (alloc_buffer bytes true (some raw) memalign smaps ≡ some a)
      × Window bytes raw x a
unfolding alloc_buffer
alloc_buffer-Window bytes raw smaps x memalign large fits =
    let some_bytes : (bytes == 0) ≡ false = ground arith in
    let huge : leb huge_page bytes ≡ true = ground arith in
    let span : ℕ = u64 (bytes + huge_page) in
    let head : ℕ = align_up raw - raw in
    let tail : ℕ = u64 (span + 2 ^ 64 - head + 2 ^ 64 - bytes) in
    let a : Alloc = record {
      buffer = record {
        address = some (align_up raw);
        size = bytes;
        mapped = bytes;
        huge_requested = true;
        huge_granted = smaps;
      };
      given_back =
          (if ltb 0 head then (raw, head) ∷ [] else [])
          ++ (if ltb 0 tail then (u64 (align_up raw + bytes), tail) ∷ [] else []);
    } in
    (
      a,
      rw (alloc_buffer, some_bytes, huge) refl,
      record {
        start = align_up raw;
        address = refl;
        size = (refl, refl);
        aligned = omega arith;
        once = ground arith;
      },
    )
