-- ===== src/Sha256/Hex.antt =====
-- The hexadecimal text of a digest, and the way back.
use benchmark_platform.Prelude.{
  ℕ, ◌+◌, ◌-◌, ◌*◌, ◌/◌, ◌%◌, ◌≤◌, ◌<◌, List, [], ◌∷◌, leb, if◌then◌else◌, length, All, All-append,
  ◌≡◌, ◌⊎◌, refl, ap₂, ap, ◌∙◌, arith,
}
use benchmark_platform.Sha256.{Words8, word_bytes, output, sha256, hex_digit, hex, sha256_hex}

-- A lower-case hexadecimal digit.
abbrev pub IsHexDigit : ℕ → Type 0
IsHexDigit c = ((b'0' ≤ c) × (c ≤ b'9')) ⊎ ((b'a' ≤ c) × (c ≤ b'f'))

abbrev hex_value : ℕ → ℕ
hex_value c = if leb c b'9' then c - b'0' else c - b'a' + 10

-- Two digits make a byte.
pub unhex : List ℕ → List ℕ
unhex [] = []
unhex (x ∷ []) = []
unhex (x ∷ y ∷ r) = (hex_value x * 16 + hex_value y) ∷ unhex r

hex_byte :
    (b : ℕ)
    → b < 256
    → IsHexDigit (hex_digit (b / 16))
      × IsHexDigit (hex_digit (b % 16))
      × (hex_value (hex_digit (b / 16)) * 16 + hex_value (hex_digit (b % 16)) ≡ b)
hex_byte b h = ground arith

length-hex : (bs : List ℕ) → length (hex bs) ≡ length bs * 2
unfolding hex
length-hex [] = refl
length-hex (b ∷ bs) = omega (arith, length-hex bs)

hex-IsHexDigit : (bs : List ℕ) → All (λ b. b < 256) bs → All IsHexDigit (hex bs)
unfolding hex
hex-IsHexDigit [] h = tt
hex-IsHexDigit (b ∷ bs) h = let (hi, lo, _) = hex_byte b h.0 in (hi, (lo, hex-IsHexDigit bs h.1))

unhex-hex : (bs : List ℕ) → All (λ b. b < 256) bs → unhex (hex bs) ≡ bs
unfolding hex unhex
unhex-hex [] h = refl
unhex-hex (b ∷ bs) h = ap₂ ◌∷◌ (hex_byte b h.0).2 (unhex-hex bs h.1)

word_bytes-lt : (w : ℕ) → All (λ b. b < 256) (word_bytes w)
unfolding word_bytes
word_bytes-lt w = omega arith

output-lt : (v : Words8) → All (λ b. b < 256) (output v)
unfolding output
output-lt v = All-append _ (word_bytes v.a) _ (word_bytes-lt v.a) (
    All-append _ (word_bytes v.b) _ (word_bytes-lt v.b) (
      All-append _ (word_bytes v.c) _ (word_bytes-lt v.c) (
        All-append _ (word_bytes v.d) _ (word_bytes-lt v.d) (
          All-append _ (word_bytes v.e) _ (word_bytes-lt v.e) (
            All-append _ (word_bytes v.f) _ (word_bytes-lt v.f)
              (All-append _ (word_bytes v.g) _ (word_bytes-lt v.g) (word_bytes-lt v.h)))))))

length-output : (v : Words8) → length (output v) ≡ 32
unfolding output word_bytes
length-output v = refl

-- The text of a digest is 64 lower-case hexadecimal digits, and reading them back in pairs gives
-- the 32 bytes of the digest.
pub unhex-sha256_hex :
    (text : List ℕ)
    → (length (sha256_hex text) ≡ 64)
      × All IsHexDigit (sha256_hex text)
      × (length (sha256 text) ≡ 32)
      × (unhex (sha256_hex text) ≡ sha256 text)
unfolding sha256_hex sha256
unhex-sha256_hex text = (
  length-hex _ ∙ ap (λ (k : ℕ). k * 2) (length-output _),
  hex-IsHexDigit _ (output-lt _),
  length-output _,
  unhex-hex _ (output-lt _),
)
