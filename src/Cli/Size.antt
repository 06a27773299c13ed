-- ===== src/Cli/Size.antt =====
-- `parse_size`: the value of a number with a suffix.
use mathlib.Core.Option
use benchmark_platform.Prelude.{
  ℕ, ◌+◌, ◌*◌, ◌%◌, ◌^◌, ◌<◌, ◌≤◌, ◌≡◌, ◌⊎◌, ◌↔◌, refl, sym, ap, ap₂, subst, ◌∙◌, arith, true,
  false, none, some, List, [], ◌∷◌, ◌++◌, map, All, length, ltb, if◌then◌else◌, Bool-cases,
  Option-cases, inl, inr,
}
use benchmark_platform.Prelude.Decimal.{
  is_digit, digits_from, starts_digit, number, digits_from_lem,
}
use benchmark_platform.Prelude.Words.{shl64}
use benchmark_platform.Cli.{read_decimal, to_upper, shift_of, parse_size}

read_decimal_lem :
    (d : ℕ) (ds rest : List ℕ)
    → All (λ c. is_digit c ≡ true) (d ∷ ds)
    → starts_digit rest ≡ false
    → read_decimal (d ∷ ds ++ rest)
      ≡ (if ltb (number (d ∷ ds)) (2 ^ 64) then some (number (d ∷ ds), rest) else none)
unfolding read_decimal
read_decimal_lem d ds rest h e =
    let v : 0 * 10 ^ length (d ∷ ds) + number (d ∷ ds) ≡ number (d ∷ ds) = grind arith in
    let r : digits_from (d ∷ ds ++ rest) 0 ≡ (number (d ∷ ds), rest) =
      digits_from_lem (d ∷ ds) rest 0 h e ∙ ap (λ v. (v, rest)) v in
    rw (read_decimal, r, h.0) refl

-- A character is the capital letter, or the small one.
abbrev pub Letter : (capital c : ℕ) → Type 0
Letter capital c = (c ≡ capital) ⊎ (c ≡ capital + 32)

-- The powers of two of K, M and G.
pub data Prefix : (c bits : ℕ) → Type 0 where
  kibi : (c : ℕ) → Letter b'K' c → Prefix c 10
  mebi : (c : ℕ) → Letter b'M' c → Prefix c 20
  gibi : (c : ℕ) → Letter b'G' c → Prefix c 30

-- What a suffix stands for: nothing, B, and K, M or G alone, with B or with iB, in any case.
pub data Suffix : List ℕ → (bits : ℕ) → Type 0 where
  no_suffix : Suffix [] 0
  byte : (b : ℕ) → Letter b'B' b → Suffix (b ∷ []) 0
  alone : (c bits : ℕ) → Prefix c bits → Suffix (c ∷ []) bits
  with_b : (c b bits : ℕ) → Prefix c bits → Letter b'B' b → Suffix (c ∷ b ∷ []) bits
  with_ib :
      (c i b bits : ℕ)
      → Prefix c bits
      → Letter b'I' i
      → Letter b'B' b
      → Suffix (c ∷ i ∷ b ∷ []) bits

capital-Letter : (L c : ℕ) → 65 ≤ L → L ≤ 90 → to_upper c ≡ L → Letter L c
capital-Letter L c lo hi e = ground arith

Letter-capital : (L c : ℕ) → 65 ≤ L → L ≤ 90 → Letter L c → to_upper c ≡ L
Letter-capital L c lo hi (inl e) = ground arith
Letter-capital L c lo hi (inr e) = ground arith

-- A capital letter, with what it stands for.
abbrev Scaled : (u k : ℕ) → Type 0
Scaled u k = ((u ≡ b'K') × (k ≡ 10)) ⊎ (((u ≡ b'M') × (k ≡ 20)) ⊎ ((u ≡ b'G') × (k ≡ 30)))

shift_of_one : (u k : ℕ) → shift_of (u ∷ []) ≡ some k → ((u ≡ b'B') × (k ≡ 0)) ⊎ Scaled u k
unfolding shift_of
shift_of_one u k e = ground arith

shift_of_two : (u v k : ℕ) → shift_of (u ∷ v ∷ []) ≡ some k → Scaled u k × (v ≡ b'B')
unfolding shift_of
shift_of_two u v k e = ground arith

shift_of_three :
    (u v w k : ℕ) → shift_of (u ∷ v ∷ w ∷ []) ≡ some k → Scaled u k × (v ≡ b'I') × (w ≡ b'B')
unfolding shift_of
shift_of_three u v w k e = ground arith

shift_of_longer : (u v w x : ℕ) (r : List ℕ) → shift_of (u ∷ v ∷ w ∷ x ∷ r) ≡ none
unfolding shift_of
shift_of_longer u v w x r = ground arith

Scaled-Prefix : (c k : ℕ) → Scaled (to_upper c) k → Prefix c k
Scaled-Prefix c k (inl (e, z)) =
    subst (Prefix c) (sym z) (Prefix.kibi c (capital-Letter b'K' c (omega arith) (omega arith) e))
Scaled-Prefix c k (inr (inl (e, z))) =
    subst (Prefix c) (sym z) (Prefix.mebi c (capital-Letter b'M' c (omega arith) (omega arith) e))
Scaled-Prefix c k (inr (inr (e, z))) =
    subst (Prefix c) (sym z) (Prefix.gibi c (capital-Letter b'G' c (omega arith) (omega arith) e))

small_b : (b : ℕ) → to_upper b ≡ b'B' → Letter b'B' b
small_b b e = capital-Letter b'B' b (omega arith) (omega arith) e

shift_of-Suffix : (s : List ℕ) (k : ℕ) → shift_of (map to_upper s) ≡ some k → Suffix s k
unfolding shift_of
shift_of-Suffix [] k e = subst (Suffix []) (Option.some-injective 0 k e) Suffix.no_suffix
shift_of-Suffix (c ∷ []) k e = elim (shift_of_one (to_upper c) k e) [
  | inl (b, z) ↦ subst (Suffix (c ∷ [])) (sym z) (Suffix.byte c (small_b c b))
  | inr p ↦ Suffix.alone c k (Scaled-Prefix c k p)
]
shift_of-Suffix (c ∷ b ∷ []) k e =
    let p = shift_of_two (to_upper c) (to_upper b) k e in
    Suffix.with_b c b k (Scaled-Prefix c k p.0) (small_b b p.1)
shift_of-Suffix (c ∷ i ∷ b ∷ []) k e =
    let p = shift_of_three (to_upper c) (to_upper i) (to_upper b) k e in
    Suffix.with_ib c i b k (Scaled-Prefix c k p.0)
      (capital-Letter b'I' i (omega arith) (omega arith) p.1) (small_b b p.2)
shift_of-Suffix (c ∷ i ∷ b ∷ d ∷ r) k e = absurd (
    Option.none-ne-some k (
      sym (shift_of_longer (to_upper c) (to_upper i) (to_upper b) (to_upper d) (map to_upper r))
      ∙ e))

big_b : (b : ℕ) → Letter b'B' b → to_upper b ≡ b'B'
big_b b h = Letter-capital b'B' b (omega arith) (omega arith) h

-- A prefix in capitals is one of these.
Prefix-Scaled : (c k : ℕ) → Prefix c k → Scaled (to_upper c) k
Prefix-Scaled c _ (Prefix.kibi _ h) =
    inl (Letter-capital b'K' c (omega arith) (omega arith) h, refl)
Prefix-Scaled c _ (Prefix.mebi _ h) =
    inr (inl (Letter-capital b'M' c (omega arith) (omega arith) h, refl))
Prefix-Scaled c _ (Prefix.gibi _ h) =
    inr (inr (Letter-capital b'G' c (omega arith) (omega arith) h, refl))

Scaled-shift_of :
    (u k : ℕ)
    → Scaled u k
    → (shift_of (u ∷ []) ≡ some k)
      × (shift_of (u ∷ b'B' ∷ []) ≡ some k)
      × (shift_of (u ∷ b'I' ∷ b'B' ∷ []) ≡ some k)
unfolding shift_of
Scaled-shift_of u k (inl (e, z)) = rw (e, z) (refl, refl, refl)
Scaled-shift_of u k (inr (inl (e, z))) = rw (e, z) (refl, refl, refl)
Scaled-shift_of u k (inr (inr (e, z))) = rw (e, z) (refl, refl, refl)

Suffix-shift_of : (s : List ℕ) (k : ℕ) → Suffix s k → shift_of (map to_upper s) ≡ some k
unfolding shift_of
Suffix-shift_of _ _ Suffix.no_suffix = refl
Suffix-shift_of _ _ (Suffix.byte b h) = ap (λ c. shift_of (c ∷ [])) (big_b b h)
Suffix-shift_of _ k (Suffix.alone c _ p) = (Scaled-shift_of (to_upper c) k (Prefix-Scaled c k p)).0
Suffix-shift_of _ k (Suffix.with_b c b _ p h) =
    ap (λ d. shift_of (to_upper c ∷ d ∷ [])) (big_b b h)
    ∙ (Scaled-shift_of (to_upper c) k (Prefix-Scaled c k p)).1
Suffix-shift_of _ k (Suffix.with_ib c i b _ p hi h) =
    ap₂ (λ j d. shift_of (to_upper c ∷ j ∷ d ∷ []))
      (Letter-capital b'I' i (omega arith) (omega arith) hi) (big_b b h)
    ∙ (Scaled-shift_of (to_upper c) k (Prefix-Scaled c k p)).2

parse_size-digits :
    (d : ℕ) (ds suffix : List ℕ)
    → All (λ c. is_digit c ≡ true) (d ∷ ds)
    → starts_digit suffix ≡ false
    → parse_size (d ∷ ds ++ suffix) ≡ (
        if ltb (number (d ∷ ds)) (2 ^ 64)
        then Option.map (shl64 (number (d ∷ ds))) (shift_of (map to_upper suffix))
        else none)
unfolding parse_size
parse_size-digits d ds suffix h e = elim (Bool-cases (ltb (number (d ∷ ds)) (2 ^ 64))) [
  | inr large ↦ rw (parse_size, read_decimal_lem d ds suffix h e, large) refl
  | inl fits ↦ elim (Option-cases (shift_of (map to_upper suffix))) [
    | inl unknown ↦ rw (parse_size, read_decimal_lem d ds suffix h e, fits, unknown) refl
    | inr (k, known) ↦ rw (parse_size, read_decimal_lem d ds suffix h e, fits, known) refl
  ]
]

-- What a number with a suffix may be read as.
abbrev pub Reads : (n : ℕ) (suffix : List ℕ) (size : ℕ) → Type 0
Reads n suffix size =
    (n < 2 ^ 64) × (bits : ℕ) × Suffix suffix bits × (size ≡ n * 2 ^ bits % 2 ^ 64)

known_size :
    (n : ℕ) (suffix : List ℕ) (size : ℕ)
    → n < 2 ^ 64
    → Option.map (shl64 n) (shift_of (map to_upper suffix)) ≡ some size
    → Reads n suffix size
known_size n suffix size fits r = elim (Option-cases (shift_of (map to_upper suffix))) [
  | inl unknown ↦ absurd (Option.none-ne-some size (ap (Option.map (shl64 n)) (sym unknown) ∙ r))
  | inr (k, known) ↦ (
    fits,
    k,
    shift_of-Suffix suffix k known,
    Option.some-injective size (shl64 n k) (sym r ∙ ap (Option.map (shl64 n)) known),
  )
]

-- A text of digits with a suffix that does not begin with a digit is read as a size exactly if
-- the number is below 2^64, the suffix is none, B, or K, M or G alone, with B or with iB, in
-- capital or small letters, and the size is the number times 2^0, 2^10, 2^20 or 2^30, modulo
-- 2^64.
pub parse_size_iff :
    (d : ℕ) (ds suffix : List ℕ) (size : ℕ)
    → All (λ c. is_digit c ≡ true) (d ∷ ds)
    → starts_digit suffix ≡ false
    → (parse_size (d ∷ ds ++ suffix) ≡ some size) ↔ Reads (number (d ∷ ds)) suffix size
parse_size_iff d ds suffix size h e =
    let n : ℕ = number (d ∷ ds) in
    let is = parse_size-digits d ds suffix h e in
    elim (Bool-cases (ltb n (2 ^ 64))) [
      | inr large ↦
          rw (is, large) (λ r. absurd (Option.none-ne-some size r), λ r. absurd (ground arith))
      | inl fits ↦
          rw (is, fits)
            (
              known_size n suffix size (ground arith),
              λ r. ap (Option.map (shl64 n)) (Suffix-shift_of suffix r.1 r.2) ∙ ap some (sym r.3),
            )
    ]
