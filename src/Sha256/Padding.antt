-- ===== src/Sha256/Padding.antt =====
-- The tail against the padding of FIPS 180-4, and the two digests.
use benchmark_platform.Prelude.{
  ℕ, zero, suc, ◌+◌, ◌-◌, ◌*◌, ◌/◌, ◌%◌, ◌^◌, ◌<◌, ◌≤◌, List, ◌++◌, leb, ltb, Bool-cases, inl, inr,
  length, get_or, take, drop, replicate, length-append, length-drop, length-take, length-replicate,
  get_or-append_lt, get_or-append_le, get_or-take, get_or-replicate, list_ext, take-take, drop-take,
  ◌≡◌, refl, sym, ap, ◌∙◌, arith,
}
use mathlib.Core.Path.{ap₂}
use benchmark_platform.Sha256.{
  Words8, compress, initial, full_blocks, put_length, tail_length, tail_blocks, output, sha256,
  finish,
}
use benchmark_platform.Sha256.Spec.{big_endian, padding, padded, compress_blocks}
use benchmark_platform.Sha256.Blocks.{full_blocks_lem, compress_blocks-append}
use benchmark_platform.Sha256.Tail.{
  length-big_endian, length-put_length, get_or-put_length_miss, get_or-put_length_hit, start,
  length-start, get_or-start, zero_count, get_or-zeros_early, get_or-zeros_late,
}

-- The blocks behind the last full one, when the text is `n` bytes long.
module _ (zeros rest : List ℕ) (whole : length zeros ≡ 128) (blank : (i : ℕ) → get_or zeros i 0 ≡ 0)
    (short : length rest < 64) (n q : ℕ) (total : n ≡ q * 64 + length rest)
    (fits : n < 2 ^ 61) where
  abbrev size : ℕ
  size = tail_length (length rest)

  size_lem : length rest + 9 + zero_count n ≡ size
  unfolding zero_count
  size_lem = ground arith

  bits_lem : n * 8 % 2 ^ 64 ≡ n * 8
  bits_lem = omega arith

  abbrev tail : List ℕ
  tail = put_length 8 (start zeros rest whole blank short) size (n * 8)

  length-padded : length (rest ++ padding n) ≡ size
  unfolding padding zero_count
  length-padded =
      let z = zero_count n in
      omega (
        arith,
        size_lem,
        length-append {0} rest (padding n),
        length-append {0} (replicate {A = ℕ} z 0) (big_endian 8 (n * 8)),
        length-replicate {A = ℕ} z 0,
        length-big_endian 8 (n * 8),
      )

  early : (i : ℕ) → i + 8 < size → get_or tail i 0 ≡ get_or (start zeros rest whole blank short) i 0
  early i h =
      get_or-put_length_miss 8 _ size (n * 8) i h
        (ground (arith, length-start zeros rest whole blank short))

  -- Behind the text, by the distance from its end.
  get_or-padded_from :
      (k : ℕ) → length rest + k < size → get_or (padding n) k 0 ≡ get_or tail (length rest + k) 0
  unfolding padding zero_count
  get_or-padded_from zero h = sym (
      early (length rest + 0) (omega (arith, size_lem))
      ∙ get_or-start zeros rest whole blank short (length rest + 0)
      ∙ ground arith)
  get_or-padded_from (suc k) h = elim (Bool-cases (ltb k (zero_count n))) [
    | inl e ↦
        get_or-zeros_early (zero_count n) (n * 8) k (ground arith)
        ∙ sym (
            early (length rest + suc k) (ground (arith, size_lem))
            ∙ get_or-start zeros rest whole blank short (length rest + suc k)
            ∙ ground arith)
    | inr e ↦
        let j = size - 1 - (length rest + suc k) in
        let at : size - 1 - j ≡ length rest + suc k = omega arith in
        get_or-zeros_late (zero_count n) (n * 8) k j (ground (arith, size_lem))
          (ground (arith, size_lem))
        ∙ sym (
            get_or-put_length_hit 8 (start zeros rest whole blank short) size (n * 8) j
              (ground (arith, size_lem)) (ground arith)
              (ground (arith, length-start zeros rest whole blank short)))
        ∙ ap (λ i. get_or tail i 0) at
  ]

  get_or-padded : (i : ℕ) → i < size → get_or (rest ++ padding n) i 0 ≡ get_or tail i 0
  get_or-padded i h = elim (Bool-cases (ltb i (length rest))) [
    | inl e ↦
        get_or-append_lt rest (padding n) i 0 (ground arith)
        ∙ sym (
            early i (ground (arith, size_lem))
            ∙ get_or-start zeros rest whole blank short i
            ∙ ground arith)
    | inr e ↦
        let at : length rest + (i - length rest) ≡ i = ground arith in
        get_or-append_le rest (padding n) i 0 (ground arith)
        ∙ get_or-padded_from (i - length rest) (omega (arith, at))
        ∙ ap (λ k. get_or tail k 0) at
  ]

  size-le : size ≤ 128
  size-le = ground arith

  length-tail : length tail ≡ 128
  length-tail =
      length-put_length 8 (start zeros rest whole blank short) size (n * 8)
      ∙ length-start zeros rest whole blank short

  -- The tail buffer holds the rest of the text, padded.
  padded-tail : rest ++ padding n ≡ take size tail
  padded-tail =
      list_ext (rest ++ padding n) (take size tail) 0
        (omega (arith, length-padded, length-take size tail, length-tail, size-le))
        (λ i h.
          get_or-padded i (omega (arith, length-padded))
          ∙ sym (get_or-take size tail i 0 (omega (arith, length-padded))))

compress_blocks_one :
    (v : Words8) (m : List ℕ) → compress_blocks 1 v (take 64 m) ≡ compress v (take 64 m)
unfolding compress_blocks
compress_blocks_one v m = ap (compress v) (take-take 64 64 m (omega arith))

compress_blocks_two :
    (v : Words8) (m : List ℕ)
    → compress_blocks 2 v (take 128 m) ≡ compress (compress v (take 64 m)) (take 64 (drop 64 m))
unfolding compress_blocks
compress_blocks_two v m =
    ap₂ (λ a b. compress (compress v a) b) (take-take 64 128 m (omega arith))
      (ap (take 64) (drop-take 64 64 128 m (omega arith))
        ∙ take-take 64 64 (drop 64 m) (omega arith))

tail_blocks_lem :
    (rest : List ℕ) (n q : ℕ)
    → length rest < 64
    → n ≡ q * 64 + length rest
    → n < 2 ^ 61
    → rest ++ padding n ≡ take (tail_length (length rest)) (tail_blocks rest n)
unfolding tail_blocks start
tail_blocks_lem rest n q short total fits =
    let bits : n * 8 ≡ n * 8 % 2 ^ 64 = omega arith in
    rw (← bits)
      (padded-tail (replicate 128 0) rest refl (get_or-replicate 128 0) short n q total fits)

finish-compress_blocks :
    (v : Words8) (rest : List ℕ) (n q : ℕ)
    → length rest < 64
    → n ≡ q * 64 + length rest
    → n < 2 ^ 61
    → finish v rest n ≡ compress_blocks (tail_length (length rest) / 64) v (rest ++ padding n)
unfolding finish
finish-compress_blocks v rest n q short total fits =
    let held = tail_blocks_lem rest n q short total fits in
    elim (Bool-cases (leb (length rest + 1 + 8) 64)) [
      | inl one ↦
          let filled : rest ++ padding n ≡ take 64 (tail_blocks rest n) = rw one at held in
          rw (one, filled) (sym (compress_blocks_one v (tail_blocks rest n)))
      | inr two ↦
          let filled : rest ++ padding n ≡ take 128 (tail_blocks rest n) = rw two at held in
          rw (two, filled) (sym (compress_blocks_two v (tail_blocks rest n)))
    ]

-- For a text of fewer than 2^61 bytes, the padded text is a whole number of blocks, and the
-- digest is what compressing these blocks from the initial hash in turn gives.
pub sha256-compress_blocks :
    (text : List ℕ)
    → length text < 2 ^ 61
    → (length (padded text) % 64 ≡ 0)
      × (sha256 text ≡ output (compress_blocks (length (padded text) / 64) initial (padded text)))
unfolding sha256
sha256-compress_blocks text fits =
    let n = length text in
    let q = n / 64 in
    let rest = drop (q * 64) text in
    let short : length rest < 64 = omega (arith, length-drop (q * 64) text) in
    let total : n ≡ q * 64 + length rest = omega (arith, length-drop (q * 64) text) in
    let zeros = replicate {A = ℕ} 128 0 in
    let last : length (rest ++ padding n) ≡ tail_length (length rest) =
      length-padded zeros rest refl (get_or-replicate {A = ℕ} 128 0) short n q total fits in
    let off : 0 + q * 64 ≡ q * 64 = omega arith in
    let run : full_blocks (suc n) text initial 0 ≡ (compress_blocks q initial text, q * 64) =
      full_blocks_lem (suc n) text initial 0 q (length rest) (omega (arith, total)) short
        (omega arith)
      ∙ ap (λ k. (compress_blocks q initial text, k)) off in
    let sum : length (padded text) ≡ q * 64 + tail_length (length rest) = omega (
      arith,
      length-append {0} text (padding n),
      length-append {0} rest (padding n),
      total,
      last,
    ) in
    let count : length (padded text) / 64 ≡ q + tail_length (length rest) / 64 =
      omega (arith, sum) in
    (
      ground (arith, sum),
      (rw (run, sha256)
          (ap output (
            finish-compress_blocks (compress_blocks q initial text) rest n q short total fits
            ∙ sym (
                ap (λ k. compress_blocks k initial (padded text)) count
                ∙ compress_blocks-append q (tail_length (length rest) / 64) initial text (padding n)
                    (omega arith))))),
    )
