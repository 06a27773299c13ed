-- ===== src/Cache/Memory.antt =====
-- engine/src/cache.cpp: `alloc_buffer`, and the special members of `Buffer`. A memory call is a value:
-- what `mmap` and `posix_memalign` return is an argument, the calls that give memory back are a
-- list. The contents of the memory are left out.
use benchmark_platform.Prelude.{
  ℕ, ◌+◌, ◌-◌, ◌%◌, ◌^◌, Bool, true, false, ◌&&◌, Option, none, some, List, [], ◌∷◌, ◌++◌, ltb, leb,
  ◌==◌, if◌then◌else◌,
}
use benchmark_platform.Prelude.Words.{u64}
use benchmark_platform.Cache.{huge_page}

pub record Buffer : Type 0 where
  pub address : Option ℕ
  pub size : ℕ
  pub mapped : ℕ
  pub huge_requested : Bool
  pub huge_granted : ℕ

abbrev pub no_buffer : Buffer
no_buffer = record {
  address = none;
  size = 0;
  mapped = 0;
  huge_requested = false;
  huge_granted = 0;
}

-- A piece of memory: its address, and its length if it is mapped, else 0.
abbrev pub Piece : Type 0
Piece = ℕ × ℕ

-- What `release` leaves, with the pieces that it gives back (`munmap`, or `free` at length 0).
unfoldable pub release : Buffer → Buffer × List Piece
release b = elim b.address [
  | none ↦ (b, [])
  | some p ↦ (record b { address = none; size = 0; mapped = 0 }, (p, b.mapped) ∷ [])
]

-- The members of the source of a move, after it.
unfoldable pub moved_from : Buffer → Buffer
moved_from b = record b { address = none; size = 0; mapped = 0 }

-- `(start + kHugePage - 1) & ~(kHugePage - 1)`
abbrev pub align_up : ℕ → ℕ
align_up start = u64 (start + huge_page - 1) - u64 (start + huge_page - 1) % huge_page

pub record Alloc : Type 0 where
  pub buffer : Buffer
  pub given_back : List Piece

-- `smaps` is what `smaps_anon_huge_bytes` reads of the buffer. `none` is `bad_alloc`.
unfoldable pub alloc_buffer :
    (bytes : ℕ) (huge_pages : Bool) (mmap memalign : Option ℕ) (smaps : ℕ) → Option Alloc
alloc_buffer bytes huge_pages mmap memalign smaps =
    if bytes == 0
    then some (record { buffer = no_buffer; given_back = [] })
    else (if huge_pages && leb huge_page bytes
        then (elim mmap [
          | none ↦ none
          | some raw ↦
              let span = u64 (bytes + huge_page) in
              let head = align_up raw - raw in
              let tail = u64 (span + 2 ^ 64 - head + 2 ^ 64 - bytes) in
              some (record {
                buffer = record {
                  address = some (align_up raw);
                  size = bytes;
                  mapped = bytes;
                  huge_requested = true;
                  huge_granted = smaps;
                };
                given_back =
                    (if ltb 0 head then (raw, head) ∷ [] else [])
                    ++ (if ltb 0 tail then (u64 (align_up raw + bytes), tail) ∷ [] else []);
              })
        ])
        else (elim memalign [
          | none ↦ none
          | some raw ↦ some (record {
            buffer = record {
              address = some raw;
              size = bytes;
              mapped = 0;
              huge_requested = false;
              huge_granted = if leb huge_page bytes then smaps else 0;
            };
            given_back = [];
          })
        ]))
