-- ===== src/Prelude/Takes.antt =====
-- The first elements of a list, taken in steps.
use Prim.Native.Nat.{ℕ, zero, suc, ◌+◌, ◌≤◌}
use mathlib.Core.Path.{◌≡◌, refl, ap, ◌∙◌}
use mathlib.Core.List.{List, [], ◌∷◌, ◌++◌}
use native.Mathlib.Omega.{arith}
use benchmark_platform.Prelude.Lists.{length, take, drop}

module _ {ℓ} {A : Type ℓ} where
  pub take_more : (a n : ℕ) (xs : List A) → take a xs ++ take n (drop a xs) ≡ take (a + n) xs
  take_more zero n xs = let e : n ≡ 0 + n = omega arith in ap (λ k. take k xs) e
  take_more (suc a) zero [] =
      let e : suc (a + 0) ≡ suc a + 0 = omega arith in ap (λ k. take {A = A} k []) e
  take_more (suc a) (suc n) [] =
      let e : suc (a + suc n) ≡ suc a + suc n = omega arith in ap (λ k. take {A = A} k []) e
  take_more (suc a) n (x ∷ xs) =
      let e : suc (a + n) ≡ suc a + n = omega arith in
      ap (λ l. x ∷ l) (take_more a n xs) ∙ ap (λ k. take k (x ∷ xs)) e

  pub take_full : (n : ℕ) (xs : List A) → length xs ≤ n → take n xs ≡ xs
  take_full zero [] h = refl
  take_full zero (x ∷ xs) h = absurd (omega arith)
  take_full (suc n) [] h = refl
  take_full (suc n) (x ∷ xs) h = ap (λ l. x ∷ l) (take_full n xs (omega arith))

  pub take-append_eq : (n : ℕ) (xs ys : List A) → length xs ≡ n → take n (xs ++ ys) ≡ xs
  take-append_eq zero [] ys e = refl
  take-append_eq zero (x ∷ xs) ys e = absurd (omega arith)
  take-append_eq (suc n) [] ys e = absurd (omega arith)
  take-append_eq (suc n) (x ∷ xs) ys e = ap (λ l. x ∷ l) (take-append_eq n xs ys (omega arith))

  pub drop-append_add :
      (n k : ℕ) (xs ys : List A) → length xs ≡ n → drop (n + k) (xs ++ ys) ≡ drop k ys
  drop-append_add zero k [] ys e = let z : 0 + k ≡ k = omega arith in ap (λ j. drop j ys) z
  drop-append_add zero k (x ∷ xs) ys e = absurd (omega arith)
  drop-append_add (suc n) k [] ys e = absurd (omega arith)
  drop-append_add (suc n) k (x ∷ xs) ys e =
      let s : suc n + k ≡ suc (n + k) = omega arith in
      ap (λ j. drop j (x ∷ xs ++ ys)) s ∙ drop-append_add n k xs ys (omega arith)
