-- ===== src/Disk/TestFile/Stream.antt =====
-- The words that fill the test file are one stream, whatever the blocks.
use benchmark_platform.Prelude.{
  ℕ, zero, suc, ◌+◌, ◌-◌, ◌*◌, ◌≤◌, ◌≡◌, ◌⊎◌, inl, inr, min, refl, sym, ap, ap₂, ◌∙◌, arith, List,
  ◌∷◌, ◌++◌, length, take, drop, take_more, take-append_le, drop-append_add, Bool-cases, ltb,
}
use benchmark_platform.Disk.TestFile.{scramble, xorshift_words}

pub length-xorshift_words : (n x : ℕ) → length (xorshift_words n x).0 ≡ n
unfolding xorshift_words
length-xorshift_words zero x = refl
length-xorshift_words (suc n) x = ap suc (length-xorshift_words n (scramble x))

xorshift_words_add :
    (m n x : ℕ)
    → (xorshift_words (m + n) x).0
      ≡ (xorshift_words m x).0 ++ (xorshift_words n (xorshift_words m x).1).0
unfolding xorshift_words
xorshift_words_add zero n x = let e : 0 + n ≡ n = omega arith in ap (λ k. (xorshift_words k x).0) e
xorshift_words_add (suc m) n x =
    let e : suc m + n ≡ suc (m + n) = omega arith in
    ap (λ k. (xorshift_words k x).0) e
    ∙ ap (λ l. scramble x ∷ l) (xorshift_words_add m n (scramble x))

pub min_cases : (a b : ℕ) → (min a b ≡ a) ⊎ (b - min a b ≡ 0)
min_cases a b = elim (Bool-cases (ltb a b)) [
  | inl less ↦ inl (ground arith)
  | inr more ↦ inr (ground arith)
]

take_rest :
    (len rest : ℕ) (a b : List ℕ)
    → (len ≡ length a) ⊎ (rest ≡ 0)
    → take rest (drop len (a ++ b)) ≡ take rest b
take_rest len rest a b (inr z) = ap (λ k. take k (drop len (a ++ b))) z ∙ ap (λ k. take k b) (sym z)
take_rest len rest a b (inl e) =
    let z : len ≡ len + 0 = omega arith in
    ap (λ k. take rest (drop k (a ++ b))) z ∙ ap (take rest) (drop-append_add len 0 a b (sym e))

-- The bytes of words, eight for each, in their order.
pub record IsBytes (bytes_of : List ℕ → List ℕ) : Type 0 where
  pub eight : (words : List ℕ) → length (bytes_of words) ≡ 8 * length words
  pub in_order : (xs ys : List ℕ) → bytes_of (xs ++ ys) ≡ bytes_of xs ++ bytes_of ys

module _ (bytes_of : List ℕ → List ℕ) (law : IsBytes bytes_of) where
  -- The first `n` bytes of the stream that begins after `x`.
  abbrev pub stream : (n x : ℕ) → List ℕ
  stream n x = take n (bytes_of (xorshift_words n x).0)

  take-xorshift_words_more :
      (n m d x : ℕ)
      → n ≤ 8 * m
      → take n (bytes_of (xorshift_words (m + d) x).0) ≡ take n (bytes_of (xorshift_words m x).0)
  take-xorshift_words_more n m d x h =
      let more : List ℕ = (xorshift_words d (xorshift_words m x).1).0 in
      ap (λ l. take n (bytes_of l)) (xorshift_words_add m d x)
      ∙ ap (take n) (law.in_order (xorshift_words m x).0 more)
      ∙ take-append_le n (bytes_of (xorshift_words m x).0) (bytes_of more)
          (omega (arith, law.eight (xorshift_words m x).0, length-xorshift_words m x))

  -- With enough words, it does not matter how many.
  take-xorshift_words :
      (n m d x : ℕ)
      → n ≤ 8 * m
      → n ≤ 8 * d
      → take n (bytes_of (xorshift_words m x).0) ≡ take n (bytes_of (xorshift_words d x).0)
  take-xorshift_words n m d x h k =
      let e : m + d ≡ d + m = omega arith in
      sym (take-xorshift_words_more n m d x h)
      ∙ ap (λ j. take n (bytes_of (xorshift_words j x).0)) e
      ∙ take-xorshift_words_more n d m x k

  -- A block of `words` words, cut at the `n` bytes that are left, then the rest of the stream.
  pub stream_block :
      (words n x : ℕ)
      → take (min (8 * words) n) (bytes_of (xorshift_words words x).0)
          ++ stream (n - min (8 * words) n) (xorshift_words words x).1
        ≡ stream n x
  stream_block words n x =
      let len : ℕ = min (8 * words) n in
      let rest : ℕ = n - len in
      let a : List ℕ = bytes_of (xorshift_words words x).0 in
      let b : List ℕ = bytes_of (xorshift_words rest (xorshift_words words x).1).0 in
      let la : length a ≡ 8 * words =
        omega (arith, law.eight (xorshift_words words x).0, length-xorshift_words words x) in
      let cut : (len ≡ length a) ⊎ (rest ≡ 0) = elim (min_cases (8 * words) n) [
        | inl e ↦ inl (e ∙ sym la)
        | inr z ↦ inr z
      ] in
      let whole : bytes_of (xorshift_words (words + rest) x).0 ≡ a ++ b =
        ap bytes_of (xorshift_words_add words rest x) ∙ law.in_order (xorshift_words words x).0 _ in
      let front : take len (a ++ b) ≡ take len a = take-append_le len a b (omega arith) in
      let sum : len + rest ≡ n = omega arith in
      ap₂ ◌++◌ (sym front) (sym (take_rest len rest a b cut))
      ∙ take_more len rest (a ++ b)
      ∙ ap₂ take sum (sym whole)
      ∙ take-xorshift_words n (words + rest) n x (omega arith) (omega arith)
