-- ===== src/Sha256.antt =====
-- engine/src/sha256.cpp: SHA-256 of a byte string, and its hexadecimal text.
-- An array of words or bytes is a list; `p + off` is the rest of the data from `off` on.
pub mod Spec
pub mod Blocks
pub mod Tail
pub mod Padding
pub mod Hex
use Prim.Native.Nat.{bit_and, bit_or, bit_xor}
use Prim.Native.Char.{code}
use benchmark_platform.Prelude.{
  ℕ, zero, suc, ◌+◌, ◌-◌, ◌*◌, ◌/◌, ◌%◌, ◌^◌, List, [], ◌∷◌, ◌++◌, Bool, true, false, leb, ◌==◌,
  if◌then◌else◌, length, get_or, set, take, drop, replicate, String, ◌≡◌, refl,
}
use benchmark_platform.Prelude.Text.{codes}
use benchmark_platform.Prelude.Words.{u8, u32, ◌>>>◌, rotr32}

-- `kK`
abbrev pub round_constants : List ℕ
round_constants =
    0x428a2f98 ∷ 0x71374491 ∷ 0xb5c0fbcf ∷ 0xe9b5dba5 ∷ 0x3956c25b ∷ 0x59f111f1 ∷ 0x923f82a4
    ∷ 0xab1c5ed5 ∷ 0xd807aa98 ∷ 0x12835b01 ∷ 0x243185be ∷ 0x550c7dc3 ∷ 0x72be5d74 ∷ 0x80deb1fe
    ∷ 0x9bdc06a7 ∷ 0xc19bf174 ∷ 0xe49b69c1 ∷ 0xefbe4786 ∷ 0x0fc19dc6 ∷ 0x240ca1cc ∷ 0x2de92c6f
    ∷ 0x4a7484aa ∷ 0x5cb0a9dc ∷ 0x76f988da ∷ 0x983e5152 ∷ 0xa831c66d ∷ 0xb00327c8 ∷ 0xbf597fc7
    ∷ 0xc6e00bf3 ∷ 0xd5a79147 ∷ 0x06ca6351 ∷ 0x14292967 ∷ 0x27b70a85 ∷ 0x2e1b2138 ∷ 0x4d2c6dfc
    ∷ 0x53380d13 ∷ 0x650a7354 ∷ 0x766a0abb ∷ 0x81c2c92e ∷ 0x92722c85 ∷ 0xa2bfe8a1 ∷ 0xa81a664b
    ∷ 0xc24b8b70 ∷ 0xc76c51a3 ∷ 0xd192e819 ∷ 0xd6990624 ∷ 0xf40e3585 ∷ 0x106aa070 ∷ 0x19a4c116
    ∷ 0x1e376c08 ∷ 0x2748774c ∷ 0x34b0bcb5 ∷ 0x391c0cb3 ∷ 0x4ed8aa4a ∷ 0x5b9cca4f ∷ 0x682e6ff3
    ∷ 0x748f82ee ∷ 0x78a5636f ∷ 0x84c87814 ∷ 0x8cc70208 ∷ 0x90befffa ∷ 0xa4506ceb ∷ 0xbef9a3f7
    ∷ 0xc67178f2 ∷ []

-- The eight words of the hash, and the working variables a to h of a block.
pub record Words8 : Type 0 where
  pub a : ℕ
  pub b : ℕ
  pub c : ℕ
  pub d : ℕ
  pub e : ℕ
  pub f : ℕ
  pub g : ℕ
  pub h : ℕ

-- `n` big-endian words of four bytes.
pub load_words : ℕ → List ℕ → List ℕ
load_words zero block = []
load_words (suc n) block =
    bit_or
      (bit_or (bit_or (get_or block 0 0 * 2 ^ 24) (get_or block 1 0 * 2 ^ 16))
        (get_or block 2 0 * 2 ^ 8))
      (get_or block 3 0)
    ∷ load_words n (drop 4 block)

-- `w[i]` for `n` more indices, `i` being the length of `w` so far.
pub extend : ℕ → List ℕ → List ℕ
extend zero w = w
extend (suc n) w =
    let i = length w in
    let w15 = get_or w (i - 15) 0 in
    let w2 = get_or w (i - 2) 0 in
    let s0 = bit_xor (bit_xor (rotr32 w15 7) (rotr32 w15 18)) (w15 >>> 3) in
    let s1 = bit_xor (bit_xor (rotr32 w2 17) (rotr32 w2 19)) (w2 >>> 10) in
    extend n (w ++ u32 (get_or w (i - 16) 0 + s0 + get_or w (i - 7) 0 + s1) ∷ [])

pub round : ℕ → ℕ → Words8 → Words8
round k w v =
    let s1 = bit_xor (bit_xor (rotr32 v.e 6) (rotr32 v.e 11)) (rotr32 v.e 25) in
    let ch = bit_xor (bit_and v.e v.f) (bit_and (2 ^ 32 - 1 - v.e) v.g) in
    let t1 = u32 (v.h + s1 + ch + k + w) in
    let s0 = bit_xor (bit_xor (rotr32 v.a 2) (rotr32 v.a 13)) (rotr32 v.a 22) in
    let maj = bit_xor (bit_xor (bit_and v.a v.b) (bit_and v.a v.c)) (bit_and v.b v.c) in
    let t2 = u32 (s0 + maj) in
    record {
      a = u32 (t1 + t2);
      b = v.a;
      c = v.b;
      d = v.c;
      e = u32 (v.d + t1);
      f = v.e;
      g = v.f;
      h = v.g;
    }

pub rounds : List ℕ → List ℕ → Words8 → Words8
rounds [] ws v = v
rounds (k ∷ ks) [] v = v
rounds (k ∷ ks) (w ∷ ws) v = rounds ks ws (round k w v)

pub compress : Words8 → List ℕ → Words8
compress v block =
    let r = rounds round_constants (extend 48 (load_words 16 block)) v in
    record {
      a = u32 (v.a + r.a);
      b = u32 (v.b + r.b);
      c = u32 (v.c + r.c);
      d = u32 (v.d + r.d);
      e = u32 (v.e + r.e);
      f = u32 (v.f + r.f);
      g = u32 (v.g + r.g);
      h = u32 (v.h + r.h);
    }

abbrev pub initial : Words8
initial = record {
  a = 0x6a09e667;
  b = 0xbb67ae85;
  c = 0x3c6ef372;
  d = 0xa54ff53a;
  e = 0x510e527f;
  f = 0x9b05688c;
  g = 0x1f83d9ab;
  h = 0x5be0cd19;
}

-- `for (; off + 64 <= n; off += 64) compress(h, p + off)`, with the hash and `off` at its end.
pub full_blocks : ℕ → List ℕ → Words8 → ℕ → Words8 × ℕ
full_blocks zero text v off = (v, off)
full_blocks (suc fuel) text v off = elim (leb (off + 64) (length text)) [
  | true ↦ full_blocks fuel text (compress v (take 64 (drop off text))) (off + 64)
  | false ↦ (v, off)
]

-- `memcpy` to the start of a larger array
abbrev pub memcpy : List ℕ → List ℕ → List ℕ
memcpy dst src = src ++ drop (length src) dst

-- The last `n` rounds of `tail[tail_len - 1 - i] = bits >> (8 * i)` are still to come.
pub put_length : ℕ → List ℕ → (tail_len bits : ℕ) → List ℕ
put_length zero tail tail_len bits = tail
put_length (suc i) tail tail_len bits =
    set (put_length i tail tail_len bits) (tail_len - 1 - i) (u8 (bits >>> (8 * i)))

abbrev pub tail_length : ℕ → ℕ
tail_length rem = if leb (rem + 1 + 8) 64 then 64 else 128

-- The last one or two blocks; `n` is the number of bytes of the whole text.
pub tail_blocks : List ℕ → ℕ → List ℕ
tail_blocks rest n =
    let rem = length rest in
    let tail = set (memcpy (replicate 128 0) rest) rem 0x80 in
    put_length 8 tail (tail_length rem) (n * 8 % 2 ^ 64)

pub word_bytes : ℕ → List ℕ
word_bytes w = u8 (w >>> 24) ∷ u8 (w >>> 16) ∷ u8 (w >>> 8) ∷ u8 w ∷ []

pub output : Words8 → List ℕ
output v =
    word_bytes v.a
    ++ (word_bytes v.b
        ++ (word_bytes v.c
            ++ (word_bytes v.d
                ++ (word_bytes v.e ++ (word_bytes v.f ++ (word_bytes v.g ++ word_bytes v.h))))))

-- The hash after the last one or two blocks.
pub finish : Words8 → List ℕ → ℕ → Words8
finish v rest n =
    let tail = tail_blocks rest n in
    let v' = compress v (take 64 tail) in
    if tail_length (length rest) == 128 then compress v' (take 64 (drop 64 tail)) else v'

pub sha256 : List ℕ → List ℕ
sha256 text =
    let n = length text in
    let (v, off) = full_blocks (suc n) text initial 0 in output (finish v (drop off text) n)

-- `kHex[d]`
abbrev pub hex_digit : ℕ → ℕ
hex_digit d = if leb d 9 then b'0' + d else b'a' + d - 10

pub hex : List ℕ → List ℕ
hex [] = []
hex (b ∷ bs) = hex_digit (b / 16) ∷ hex_digit (b % 16) ∷ hex bs

-- The text is given by its bytes.
pub sha256_hex : List ℕ → List ℕ
sha256_hex text = hex (sha256 text)

hex_of_abc :
    sha256_hex (codes "abc")
    ≡ codes "ba7816bf8f01cfea414140de5dae2223b00361a396177a9cb410ff61f20015ad"
unfolding sha256_hex sha256 finish hex output word_bytes tail_blocks put_length full_blocks compress
    rounds round extend load_words
hex_of_abc = refl
