-- ===== src/Sha256/Tail.antt =====
-- The bytes of the tail: the rest of the text, the mark, and the length.
use benchmark_platform.Prelude.{
  ℕ, zero, suc, ◌+◌, ◌-◌, ◌*◌, ◌%◌, ◌<◌, ◌≤◌, List, ◌++◌, ltb, ◌==◌, if◌then◌else◌, length, get_or,
  set, drop, replicate, length-append, length-set, length-drop, length-replicate, get_or-set,
  get_or-append_lt, get_or-append_le, get_or-drop, get_or-replicate, ◌≡◌, refl, ap, ◌∙◌, arith,
}
use benchmark_platform.Prelude.Words.{u8, ◌>>>◌}
use benchmark_platform.Sha256.{memcpy, put_length}
use benchmark_platform.Sha256.Spec.{big_endian}

pub length-big_endian : (n bits : ℕ) → length (big_endian n bits) ≡ n
unfolding big_endian
length-big_endian zero bits = refl
length-big_endian (suc n) bits = ap suc (length-big_endian n bits)

pub get_or-big_endian :
    (n bits i : ℕ) → i < n → get_or (big_endian n bits) i 0 ≡ u8 (bits >>> (8 * (n - 1 - i)))
unfolding big_endian
get_or-big_endian zero bits i h = elim h [ ]
get_or-big_endian (suc n) bits zero h =
    let e : n ≡ suc n - 1 - 0 = omega arith in ap (λ k. u8 (bits >>> (8 * k))) e
get_or-big_endian (suc n) bits (suc i) h =
    let e : n - 1 - i ≡ suc n - 1 - suc i = omega arith in
    get_or-big_endian n bits i (omega arith) ∙ ap (λ k. u8 (bits >>> (8 * k))) e

pub length-put_length :
    (k : ℕ) (tail : List ℕ) (n bits : ℕ) → length (put_length k tail n bits) ≡ length tail
unfolding put_length
length-put_length zero tail n bits = refl
length-put_length (suc k) tail n bits =
    length-set (put_length k tail n bits) _ _ ∙ length-put_length k tail n bits

-- The last `k` bytes below `n` are those of the length, the ones before them stay.
pub get_or-put_length_miss :
    (k : ℕ) (tail : List ℕ) (n bits i : ℕ)
    → i + k < n
    → n ≤ length tail
    → get_or (put_length k tail n bits) i 0 ≡ get_or tail i 0
unfolding put_length
get_or-put_length_miss zero tail n bits i h p = refl
get_or-put_length_miss (suc k) tail n bits i h p = ground (
  arith,
  get_or-set (put_length k tail n bits) (n - 1 - k) i (u8 (bits >>> (8 * k))) 0
      (omega (arith, length-put_length k tail n bits)),
  get_or-put_length_miss k tail n bits i (omega arith) p,
)

pub get_or-put_length_hit :
    (k : ℕ) (tail : List ℕ) (n bits j : ℕ)
    → j < k
    → k ≤ n
    → n ≤ length tail
    → get_or (put_length k tail n bits) (n - 1 - j) 0 ≡ u8 (bits >>> (8 * j))
unfolding put_length
get_or-put_length_hit zero tail n bits j h q p = elim h [ ]
get_or-put_length_hit (suc k) tail n bits j h q p =
    let written =
      get_or-set (put_length k tail n bits) (n - 1 - k) (n - 1 - j) (u8 (bits >>> (8 * k))) 0
        (omega (arith, length-put_length k tail n bits)) in
    ground (arith, written, get_or-put_length_hit k tail n bits j)

pub length-memcpy :
    (dst src : List ℕ) → length src ≤ length dst → length (memcpy dst src) ≡ length dst
length-memcpy dst src h =
    omega (arith, length-append src (drop (length src) dst), length-drop (length src) dst)

-- The 128 zero bytes with the rest of the text and the mark.
module _ (zeros rest : List ℕ) (size : length zeros ≡ 128) (blank : (i : ℕ) → get_or zeros i 0 ≡ 0)
    (short : length rest < 64) where
  unfoldable pub start : List ℕ
  start = set (memcpy zeros rest) (length rest) 0x80

  pub length-start : length start ≡ 128
  unfolding start
  length-start =
      length-set (memcpy zeros rest) (length rest) 0x80
      ∙ length-memcpy zeros rest (omega arith)
      ∙ size

  pub get_or-start :
      (i : ℕ)
      → get_or start i 0
        ≡ (if i == length rest then 0x80 else if ltb i (length rest) then get_or rest i 0 else 0)
  unfolding start
  get_or-start i =
      let behind = drop (length rest) zeros in
      let written =
        get_or-set (memcpy zeros rest) (length rest) i 0x80 0
          (omega (arith, length-memcpy zeros rest, size)) in
      ground (
        arith,
        written,
        get_or-append_lt rest behind i 0,
        get_or-append_le rest behind i 0,
        get_or-drop (length rest) zeros (i - length rest) 0,
        blank (length rest + (i - length rest)),
      )

unfoldable pub zero_count : ℕ → ℕ
zero_count n = (64 - (n + 9) % 64) % 64

-- The zero bytes and the length behind the mark.
pub get_or-zeros_early :
    (z bits i : ℕ) → i < z → get_or (replicate z 0 ++ big_endian 8 bits) i 0 ≡ 0
get_or-zeros_early z bits i h =
    get_or-append_lt (replicate z 0) (big_endian 8 bits) i 0
      (omega (arith, length-replicate {A = ℕ} z 0))
    ∙ get_or-replicate z 0 i

pub get_or-zeros_late :
    (z bits i j : ℕ)
    → j < 8
    → i + j ≡ z + 7
    → get_or (replicate z 0 ++ big_endian 8 bits) i 0 ≡ u8 (bits >>> (8 * j))
get_or-zeros_late z bits i j h e =
    let at : 8 - 1 - (i - z) ≡ j = omega arith in
    get_or-append_le (replicate z 0) (big_endian 8 bits) i 0
      (omega (arith, length-replicate {A = ℕ} z 0))
    ∙ ap (λ k. get_or (big_endian 8 bits) (i - k) 0) (length-replicate z 0)
    ∙ get_or-big_endian 8 bits (i - z) (omega arith)
    ∙ ap (λ k. u8 (bits >>> (8 * k))) at
